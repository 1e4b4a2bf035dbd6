-- ===== src/Tests/Site.antt =====
-- The theorems on the pages of the web proxy at concrete inputs:
-- py/akari/web_proxy/router.py.
use akari_proxy.Prelude.{
  ◌≡◌, refl, inl, Bool, true, false, ◌||◌, Option, none, some, List, [], ◌∷◌, ◌++◌, arith,
  if◌then◌else◌, concat, All, Text, Bytes, text_eq, nat_eq, text_key,
}
use akari_proxy.Prelude.Dict.{Dict}
use akari_proxy.Prelude.Decimal.{decimal}
use akari_proxy.Prelude.Str.{codes, starts_with, split_onto}
use akari_proxy.Exceptions.{ok}
use akari_proxy.Client.Exchange.{ResponseOutcome}
use akari_proxy.ContentFilter.{ContentFilterSettings}
use akari_proxy.Router.Parameters.{has_enc_cookie}
use akari_proxy.Router.Proxy.{RouteResult}
use akari_proxy.Router.Links.{proxy_base, to_proxy_url}
use akari_proxy.Router.Static.{
  StaticDir, strip_slashes, resolve_path, is_under, serve_static_asset, serve_static_file,
}
use akari_proxy.Router.Static.Inside.{IsProper, serve_static_asset-Inside}
use akari_proxy.Router.Shaping.{Codec, Rewriter}
use akari_proxy.Router.Site.{Site, proxied, handle_get}
use akari_proxy.Router.Site.Followed.{proxy_link_followed}

abbrev allowing : ContentFilterSettings
allowing = record { enable_js = true; enable_css = true; enable_img = true; enable_other = true }

-- A directory of one page.
abbrev static : StaticDir
static = record {
  dir = codes "srv" ∷ codes "static" ∷ [];
  entry_file = codes "index.html";
  files = λ parts.
      if text_eq (concat parts) (codes "srvstaticindex.html") then some (codes "hi") else none;
  guess_type = λ parts. some (codes "text/html");
}

abbrev index : RouteResult
index = record {
  status_code = 200;
  body = codes "hi";
  headers = (codes "Content-Type", codes "text/html; charset=utf-8") ∷ [];
}

index_served : serve_static_asset static (codes "/css/../index.html") ≡ some index
unfolding serve_static_asset serve_static_file strip_slashes resolve_path is_under text_eq
    split_onto starts_with
index_served = refl

outside_not_served : serve_static_asset static (codes "/../index.html") ≡ none
unfolding serve_static_asset serve_static_file strip_slashes resolve_path is_under text_eq
    split_onto starts_with
outside_not_served = refl

inside_example :
    (rest : List Text) × (static.files (static.dir ++ rest) ≡ some index.body)
    × All IsProper rest
    × (index.status_code ≡ 200)
inside_example =
    serve_static_asset-Inside static (codes "/css/../index.html") index
      (
        (refl, (unfold text_eq in refl), (unfold text_eq in refl)),
        ((refl, (unfold text_eq in refl), (unfold text_eq in refl)), tt),
      )
      index_served

abbrev moved : ResponseOutcome
moved = record {
  message_id = 26;
  packets = [];
  body = some (65 ∷ []);
  status_code = some 302;
  headers = some (
      (codes "location", codes "/next")
      ∷ (codes "transfer-encoding", codes "chunked")
      ∷ (codes "content-security-policy", codes "x")
      ∷ []);
  error = none;
  complete = true;
  timed_out = false;
  bytes_sent = 1;
  bytes_received = 1;
  nacks_sent = 0;
  request_retries = 0;
}

abbrev decompress : Codec → Bytes → Option Bytes
decompress codec body = none

abbrev rewrite : Rewriter → Bytes → Text → Bool → Bytes
rewrite rewriter body url use_encryption = body

abbrev site : Site
site = record {
  listen_host = codes "a";
  listen_port = 1;
  static = static;
  send_request = λ use_encryption url. ok moved;
  decompress = decompress;
  is_letter = λ c. false;
  script = [];
  loads = λ text. none;
}

abbrev cookies : Dict Text Text
cookies = (codes "cookie", codes "akari_enc=1") ∷ []

followed_example :
    let base = proxy_base site.listen_host site.listen_port in
    (path : Text) × (to_proxy_url base (codes "http://b/") (codes "") true ≡ base ++ path)
    × (handle_get site allowing (b'/' ∷ path) cookies
        ≡ ok (proxied site allowing (codes "http://b/") false (true || has_enc_cookie cookies)))
followed_example =
    proxy_link_followed site allowing cookies (codes "http://b/") (codes "") true (refl, tt)
      (
        inl (omega arith),
        (
          inl (omega arith),
          (
            inl (omega arith),
            (
              inl (omega arith),
              (
                inl (omega arith),
                (
                  inl (omega arith),
                  (inl (omega arith), (inl (omega arith), (inl (omega arith), tt))),
                ),
              ),
            ),
          ),
        ),
      )
      (unfold starts_with in refl) (unfold starts_with proxy_base decimal in refl)
