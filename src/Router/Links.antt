-- ===== src/Router/Links.antt =====
-- `_to_proxy_url` and `_merge_outer_params_into_url`: from a link of a page to a path of the proxy,
-- and the parameters that a browser adds to such a path.

pub mod Shape
use akari_proxy.Prelude.{
  ℕ, ◌+◌, ◌/◌, Bool, not, ◌&&◌, ◌||◌, List, [], ◌∷◌, ◌++◌, if◌then◌else◌, is_empty, keep, Text,
  nat_eq, text_key,
}
use akari_proxy.Prelude.Dict.{has}
use akari_proxy.Prelude.Decimal.{decimal}
use akari_proxy.Prelude.Str.{codes, starts_with, one_of}
use akari_proxy.Url.{url_scheme, url_netloc, url_path}
use akari_proxy.Url.Percent.{quote}
use akari_proxy.Url.Query.{
  Query, append_values, parse_qs, urlencode, url_query, url_fragment, urlunsplit,
}
use akari_proxy.Url.Join.{urljoin}
use akari_proxy.Router.Parameters.{is_http}

-- `f"http://{listen_host}:{listen_port}/"`
unfoldable pub proxy_base : Text → ℕ → Text
proxy_base host port = codes "http://" ++ (host ++ b':' ∷ (decimal port ++ codes "/"))

-- `f"{sep}enc=1"`, unless the URL says already whether to encrypt.
unfoldable pub add_enc : Text → Text
add_enc proxied =
    let query = url_query proxied in
    let params = parse_qs query in
    if has params (codes "enc") || has params (codes "e")
    then proxied
    else proxied ++ (if is_empty query then codes "?enc=1" else codes "&enc=1")

-- The absolute URL that a link stands for.
unfoldable pub absolute_url : Text → Text → Text
absolute_url base_url url =
    let full = if starts_with url (codes "//") then codes "https:" ++ url else url in
    if not (is_http full) && not (is_empty base_url) then urljoin base_url full else full

unfoldable pub to_proxy_url : Text → Text → Text → Bool → Text
unfolding add_enc absolute_url
to_proxy_url proxy url base_url use_encryption =
    if is_empty url
      || (starts_with url (codes "data:")
          || (starts_with url (codes "javascript:")
              || (starts_with url (codes "mailto:") || starts_with url (codes "#"))))
    then url
    else if starts_with url proxy
    then url
    else (let proxied = proxy ++ quote (absolute_url base_url url) in
        if use_encryption then add_enc proxied else proxied)

abbrev pub control_keys : List Text
control_keys = codes "entry" ∷ codes "enc" ∷ codes "e" ∷ codes "_akari_ref" ∷ []

-- `inner_qs.setdefault(k, []); inner_qs[k].extend(vals)`, where there are values
extend_query : Query → Query → Query
extend_query inner [] = inner
extend_query inner ((name, values) ∷ extras) =
    extend_query (if is_empty values then inner else append_values inner name values) extras

unfoldable pub merge_outer_params_into_url : Text → Query → Text
unfolding extend_query
merge_outer_params_into_url url outer_params =
    let extras = keep (λ x. not (one_of control_keys x.0)) outer_params in
    if is_empty extras
    then url
    else urlunsplit (url_scheme url) (url_netloc url) (url_path url)
        (urlencode (extend_query (parse_qs (url_query url)) extras)) (url_fragment url)
