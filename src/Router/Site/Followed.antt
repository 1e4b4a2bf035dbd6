-- ===== src/Router/Site/Followed.antt =====
-- A link of a page leads through the proxy to the page that it named.
use akari_proxy.Prelude.{
  ◌≡◌, refl, ap, ◌∙◌, inl, inr, Bool, true, false, ◌||◌, some, [], ◌∷◌, ◌++◌, append-nil, is_empty,
  All, Text, text_eq, nat_eq, text_key,
}
use akari_proxy.Prelude.Dict.{Dict, get, put}
use akari_proxy.Prelude.Str.{codes, lower, strip, starts_with, split_onto}
use akari_proxy.Exceptions.{Result, ok}
use akari_proxy.Utf8
use akari_proxy.Utf8.{IsScalar, encode_char}
use akari_proxy.Url.{partition, url_path}
use akari_proxy.Url.Percent.{is_unreserved, quote, unquote, unquote_bytes}
use akari_proxy.Url.Percent.RoundTrip.{quote-IsQuoted, unquote-quote}
use akari_proxy.Url.Query.{Query, parse_qs, url_query}
use akari_proxy.Url.Quoted.{url_path_quoted, url_query_quoted, url_path_enc, url_query_enc}
use akari_proxy.ContentFilter.{ContentFilterSettings}
use akari_proxy.Router.Parameters.{
  is_http, has_enc_cookie, coerce_bool, coerce_text, wants_encryption,
}
use akari_proxy.Router.Proxy.{RouteResult}
use akari_proxy.Router.Links.{proxy_base, to_proxy_url, merge_outer_params_into_url}
use akari_proxy.Router.Links.Shape.{Begins, is_http-Begins, enc_suffix, to_proxy_url-quote}
use akari_proxy.Router.Static.{strip_slashes}
use akari_proxy.Router.Site.{
  Site, as_params, is_entry, proxied, handle_path_proxy, get_other, handle_get,
}

quote-Begins : (url : Text) → Begins url → (r : Text) × (quote url ≡ codes "http" ++ r)
unfolding quote Utf8.encode encode_char
quote-Begins url (inl (t, e)) = (codes "%3A%2F%2F" ++ quote t, ap quote e)
quote-Begins url (inr (t, e)) = (codes "s%3A%2F%2F" ++ quote t, ap quote e)

module _ (site : Site) (settings : ContentFilterSettings) (headers : Dict Text Text) where
  -- A path that is a quoted URL goes to no page of the router.
  path_proxied :
      (target q r : Text) (params : Query) (result : Result RouteResult)
      → q ≡ codes "http" ++ r
      → url_path target ≡ b'/' ∷ q
      → parse_qs (url_query target) ≡ params
      → handle_path_proxy site settings (b'/' ∷ q) params headers ≡ some result
      → handle_get site settings target headers ≡ result
  unfolding handle_get get_other text_eq
  path_proxied target q r params result e path query served = rw (path, query, served, e) refl

  -- A quoted URL is asked for, if the parameters leave it as it is.
  url_proxied :
      (url r : Text) (params : Query) (use_encryption : Bool)
      → All IsScalar url
      → is_http url ≡ true
      → quote url ≡ codes "http" ++ r
      → merge_outer_params_into_url url params ≡ url
      → is_entry params ≡ false
      → wants_encryption (as_params params) headers ≡ ok use_encryption
      → handle_path_proxy site settings (b'/' ∷ quote url) params headers
        ≡ some (ok (proxied site settings url false use_encryption))
  unfolding handle_path_proxy
  url_proxied url r params use_encryption h http e merged entry wanted =
      rw (slashes, ap is_empty e, unquote-quote url h, http, merged, entry, wanted) refl
    where
      slashes : strip_slashes (b'/' ∷ quote url) ≡ quote url
      slashes = rw e (unfold strip_slashes in refl)

  -- Whether a link asks for encryption is added to what the cookie says.
  followed :
      (url r : Text) (use_encryption : Bool)
      → All IsScalar url
      → is_http url ≡ true
      → quote url ≡ codes "http" ++ r
      → handle_get site settings (b'/' ∷ (quote url ++ enc_suffix use_encryption)) headers
        ≡ ok (proxied site settings url false (use_encryption || has_enc_cookie headers))
  followed url r false h http e =
      path_proxied (b'/' ∷ (quote url ++ [])) (quote url) r [] _ e
        (ap (λ q. url_path (b'/' ∷ q)) (append-nil (quote url))
          ∙ url_path_quoted (quote url) (quote-IsQuoted url h) local)
        (ap (λ q. parse_qs (url_query (b'/' ∷ q))) (append-nil (quote url))
          ∙ ap parse_qs (url_query_quoted (quote url) (quote-IsQuoted url h) local)
          ∙ unfold parse_qs in refl)
        (url_proxied url r [] (has_enc_cookie headers) h http e
          (unfold merge_outer_params_into_url in refl) (unfold is_entry get in refl)
          (unfold wants_encryption coerce_bool get in refl))
    where
      local : starts_with (b'/' ∷ quote url) (codes "//") ≡ false
      local = rw e (unfold starts_with in refl)
  followed url r true h http e =
      path_proxied (b'/' ∷ (quote url ++ codes "?enc=1")) (quote url) r enc _ e
        (url_path_enc (quote url) (quote-IsQuoted url h) local asked)
        (ap parse_qs (url_query_enc (quote url) (quote-IsQuoted url h) local asked)
          ∙ unfold parse_qs split_onto partition put get unquote unquote_bytes Utf8.decode in refl)
        (url_proxied url r enc true h http e (unfold merge_outer_params_into_url text_eq in refl)
          (unfold is_entry get text_eq in refl)
          (unfold wants_encryption coerce_bool coerce_text get text_eq lower strip in refl))
    where
      enc : Query
      enc = (codes "enc", codes "1" ∷ []) ∷ []

      local : starts_with (b'/' ∷ quote url) (codes "//") ≡ false
      local = rw e (unfold starts_with in refl)

      asked : starts_with (b'/' ∷ (quote url ++ codes "?enc=1")) (codes "//") ≡ false
      asked = rw e (unfold starts_with in refl)

  -- A link of a page to an absolute HTTP or HTTPS URL, which is no URL of the proxy itself, becomes
  -- a path of the proxy. A GET of that path proxies that URL, under the content filter, encrypted if
  -- the link or the cookie asks for it. The proxy's host has letters, digits and `_.-~` only.
  pub proxy_link_followed :
      (url source : Text) (use_encryption : Bool)
      → All (λ c. is_unreserved c ≡ true) site.listen_host
      → All IsScalar url
      → is_http url ≡ true
      → starts_with url (proxy_base site.listen_host site.listen_port) ≡ false
      → let base = proxy_base site.listen_host site.listen_port in
        (path : Text) × (to_proxy_url base url source use_encryption ≡ base ++ path)
        × (handle_get site settings (b'/' ∷ path) headers
            ≡ ok (proxied site settings url false (use_encryption || has_enc_cookie headers)))
  proxy_link_followed url source use_encryption plain h http foreign =
      let begins = is_http-Begins url http in
      let (r, e) = quote-Begins url begins in
      (
        quote url ++ enc_suffix use_encryption,
        to_proxy_url-quote site.listen_host site.listen_port plain url source use_encryption h
            begins foreign,
        followed url r use_encryption h http e,
      )
