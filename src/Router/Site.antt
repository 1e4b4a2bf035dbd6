-- ===== src/Router/Site.antt =====
-- `handle_get` and `handle_post`: which path is answered by what. Outside the router, a record holds
-- what it is given: the client, the decompressors, the letters beyond ASCII, the script of its pages, and `json.loads`.
pub mod Followed
use akari_proxy.Prelude.{
  ℕ, ◌-◌, ◌/◌, Bool, not, Option, none, some, List, [], ◌∷◌, if◌then◌else◌, or_else, is_empty, Text,
  Bytes, text_eq, nat_eq, text_key,
}
use akari_proxy.Prelude.Dict.{Dict, get}
use akari_proxy.Prelude.Str.{codes, starts_with, one_of}
use akari_proxy.Exceptions.{Result, ok, raise, ◌>>=◌}
use akari_proxy.Utf8
use akari_proxy.Url.{url_path}
use akari_proxy.Url.Percent.{unquote}
use akari_proxy.Url.Query.{Query, parse_qs, url_query}
use akari_proxy.Client.Exchange.{ResponseOutcome}
use akari_proxy.ContentFilter.{ContentFilterSettings}
use akari_proxy.Router.Parameters.{
  Params, Values, string, array, nil, cons, extract_url, is_http, wants_encryption,
}
use akari_proxy.Router.Proxy.{RouteResult, Answer, responds, shapes, execute_proxy}
use akari_proxy.Router.Links.{proxy_base, merge_outer_params_into_url}
use akari_proxy.Router.Static.{StaticDir, strip_slashes, serve_static_file, serve_static_asset}
use akari_proxy.Router.Rewriting.{rewrite_body}
use akari_proxy.Router.Shaping.{Codec, Rewriter, raw_response}
use akari_proxy.Router.Settings.{handle_filter_get, handle_filter_update}

pub record Site : Type 0 where
  pub listen_host : Text
  pub listen_port : ℕ
  pub static : StaticDir
  -- whether to encrypt, and the URL
  pub send_request : Bool → Text → Result ResponseOutcome
  pub decompress : Codec → Bytes → Option Bytes
  -- which code points from 128 on are letters, and the script that is put behind every HTML page
  pub is_letter : ℕ → Bool
  pub script : Text
  -- the object that a JSON text denotes; `none` for other values and for malformed texts
  pub loads : Text → Option Params

abbrev values_of : List Text → Values
values_of [] = nil
values_of (v ∷ vs) = cons (string v) (values_of vs)

-- A parsed query as a mapping of lists.
abbrev pub as_params : Query → Params
as_params [] = []
as_params ((name, values) ∷ query) = (name, array (values_of values)) ∷ as_params query

-- `bool(params.get("entry"))`
unfoldable pub is_entry : Query → Bool
is_entry params = not (is_empty (or_else (get params (codes "entry")) []))

abbrev pub base_of : Site → Text
base_of site = proxy_base site.listen_host site.listen_port

-- The rewriters of bodies, with the site's links.
abbrev pub rewrite : Site → Rewriter → Bytes → Text → Bool → Bytes
rewrite site = rewrite_body site.is_letter site.script (base_of site)

abbrev pub shape : Site → ContentFilterSettings → Bool → Bool → Answer → RouteResult
shape site settings skip_filter use_encryption (responds result) = result
shape site settings skip_filter use_encryption (shapes url outcome) =
    raw_response site.decompress (rewrite site) (base_of site) settings url outcome skip_filter
      use_encryption

-- `_execute_proxy` to its end
unfoldable pub proxied : Site → ContentFilterSettings → Text → Bool → Bool → RouteResult
proxied site settings raw_url skip_filter use_encryption =
    shape site settings skip_filter use_encryption
      (execute_proxy settings (site.send_request use_encryption) raw_url skip_filter)

unfoldable pub handle_proxy :
    Site → ContentFilterSettings → Query → Query → Params → Dict Text Text → Result RouteResult
unfolding proxied is_entry
handle_proxy site settings query_params form_params json_payload headers = do
  let raw_url = extract_url (as_params form_params ∷ json_payload ∷ as_params query_params ∷ [])
  use_encryption ← wants_encryption (as_params query_params) headers
  ok (proxied site settings raw_url (is_entry query_params) use_encryption)

-- A path that is a URL, for a list of leading slashes; `none` where it is none.
unfoldable pub handle_path_proxy :
    Site → ContentFilterSettings → Text → Query → Dict Text Text → Option (Result RouteResult)
unfolding proxied is_entry strip_slashes
handle_path_proxy site settings raw_path params headers =
    let url = unquote (strip_slashes raw_path) in
    if is_empty (strip_slashes raw_path)
    then none
    else if not (is_http url)
    then none
    else some (do
      use_encryption ← wants_encryption (as_params params) headers
      ok (
          proxied site settings (merge_outer_params_into_url url params) (is_entry params)
            use_encryption))

abbrev pub plain_text : Text
plain_text = codes "text/plain; charset=utf-8"

abbrev pub not_found : RouteResult
not_found = record {
  status_code = 404;
  body = codes "Not Found";
  headers = (codes "Content-Type", plain_text) ∷ [];
}

abbrev pub healthy : RouteResult
healthy = record {
  status_code = 200;
  body = codes "ok";
  headers = (codes "Content-Type", plain_text) ∷ [];
}

abbrev pub or_answer : Option RouteResult → Result RouteResult → Result RouteResult
or_answer (some result) other = ok result
or_answer none other = other

abbrev or_proxy : Option (Result RouteResult) → Result RouteResult → Result RouteResult
or_proxy (some result) other = result
or_proxy none other = other

-- The paths that are no page of the router.
unfoldable pub get_other :
    Site → ContentFilterSettings → Text → Query → Dict Text Text → Result RouteResult
unfolding handle_path_proxy
get_other site settings path params headers =
    if text_eq path (codes "/healthz")
    then ok healthy
    else or_proxy (handle_path_proxy site settings path params headers)
        (or_answer (serve_static_asset site.static path) (ok not_found))

unfoldable pub handle_get :
    Site → ContentFilterSettings → Text → Dict Text Text → Result RouteResult
unfolding handle_proxy handle_filter_get get_other
handle_get site settings target headers =
    let path = url_path target in
    let params = parse_qs (url_query target) in
    if text_eq path (codes "/api/filter")
    then ok (handle_filter_get settings)
    else if one_of (codes "/proxy" ∷ codes "/api/proxy" ∷ []) path
    then handle_proxy site settings params [] [] headers
    else if one_of (codes "/" ∷ [] ∷ codes "/index.html" ∷ []) path
    then or_answer (serve_static_file site.static site.static.entry_file)
        (get_other site settings path params headers)
    else get_other site settings path params headers

-- `{k: v[0] for k, v in form_params.items() if v}`
abbrev first_values : Query → Params
first_values [] = []
first_values ((name, []) ∷ query) = first_values query
first_values ((name, v ∷ vs) ∷ query) = (name, string v) ∷ first_values query

abbrev or_params : Params → Params → Params
or_params [] other = other
or_params (p ∷ ps) other = p ∷ ps

-- A body by its content type: the form, and the JSON object.
unfoldable pub read_body : Site → Dict Text Text → Bytes → Query × Params
read_body site headers body =
    let content_type = or_else (get headers (codes "content-type")) [] in
    let text_body = Utf8.decode body in
    if starts_with content_type (codes "application/x-www-form-urlencoded")
    then (parse_qs text_body, [])
    else if starts_with content_type (codes "application/json")
    then ([], or_else (site.loads (if is_empty text_body then codes "{}" else text_body)) [])
    else ([], [])

abbrev keeping :
    ContentFilterSettings → Result RouteResult → Result (RouteResult × ContentFilterSettings)
keeping settings (raise e) = raise e
keeping settings (ok result) = ok (result, settings)

unfoldable pub handle_post :
    Site
    → ContentFilterSettings
    → Text
    → Dict Text Text
    → Bytes
    → Result (RouteResult × ContentFilterSettings)
unfolding handle_proxy handle_filter_update read_body
handle_post site settings target headers body =
    let path = url_path target in
    let (form_params, json_payload) = read_body site headers body in
    if one_of (codes "/" ∷ codes "/proxy" ∷ codes "/api/proxy" ∷ []) path
    then keeping settings
        (handle_proxy site settings (parse_qs (url_query target)) form_params json_payload headers)
    else if text_eq path (codes "/api/filter")
    then ok (handle_filter_update settings (or_params json_payload (first_values form_params)))
    else ok (not_found, settings)
