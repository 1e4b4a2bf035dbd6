-- ===== src/Router/Front.antt =====
-- py/akari/web_proxy/http_server.py: what the browser is sent. The lines that BaseHTTPRequestHandler
-- adds (Server and Date) and connections that break are not modelled.
use akari_proxy.Prelude.{
  ℕ, Bool, ◌||◌, none, some, List, [], ◌∷◌, ◌++◌, ◌==◌, if◌then◌else◌, or_else, within, length,
  is_empty, take, Text, Bytes, nat_eq, text_key,
}
use akari_proxy.Prelude.Dict.{Dict, get}
use akari_proxy.Prelude.Decimal.{ℤ, pos, negsuc, decimal, parse_int}
use akari_proxy.Prelude.Str.{codes}
use akari_proxy.Exceptions.{Exn, Result, ok, raise, ◌>>=◌, value_error}
use akari_proxy.Utf8
use akari_proxy.ContentFilter.{ContentFilterSettings}
use akari_proxy.Router.Proxy.{RouteResult}
use akari_proxy.Exceptions.{message_of}
use akari_proxy.Router.Site.{Site, handle_get, handle_post}

-- The members of `HTTPStatus`.
abbrev pub is_http_status : ℕ → Bool
is_http_status n =
    within 100 103 n
    || within 200 208 n
    || n == 226
    || within 300 305 n
    || within 307 308 n
    || within 400 418 n
    || within 421 426 n
    || within 428 429 n
    || n == 431
    || n == 451
    || within 500 508 n
    || within 510 511 n

-- A response with its status, header lines and body, or none: `HTTPStatus(code)` raises ValueError for
-- other codes, outside the `try` of `_dispatch`.
pub data Written : Type 0 where
  wrote : ℕ → List (Text × Text) → Bytes → Written
  dropped : Written

unfoldable pub send_response : RouteResult → Written
send_response result =
    if is_http_status result.status_code
    then wrote result.status_code
        (result.headers ++ ((codes "Content-Length", decimal (length result.body)) ∷ []))
        result.body
    else dropped

abbrev pub failed : Exn → RouteResult
failed e = record {
  status_code = 500;
  body = Utf8.encode (codes "Internal Server Error: " ++ message_of e);
  headers = (codes "Content-Type", codes "text/plain; charset=utf-8") ∷ [];
}

abbrev pub or_failed : Result RouteResult → RouteResult
or_failed (raise e) = failed e
or_failed (ok result) = result

unfoldable pub dispatch_get : Site → ContentFilterSettings → Text → Dict Text Text → Written
unfolding send_response
dispatch_get site settings path headers =
    send_response (or_failed (handle_get site settings path headers))

-- `int(self.headers.get("Content-Length", "0") or 0)`
unfoldable pub content_length : Dict Text Text → Result ℤ
content_length headers =
    let text = or_else (get headers (codes "Content-Length")) [] in
    if is_empty text
    then ok (pos 0)
    else elim (parse_int text) [ none ↦ raise (value_error []) | some n ↦ ok n ]

-- `self.rfile.read(length) if length > 0 else b""`
abbrev pub read_from : Bytes → ℤ → Bytes
read_from stream (pos n) = take n stream
read_from stream (negsuc n) = []

abbrev answer_post :
    ContentFilterSettings
    → Result (RouteResult × ContentFilterSettings)
    → Written × ContentFilterSettings
answer_post settings (raise e) = (send_response (failed e), settings)
answer_post settings (ok (result, updated)) = (send_response result, updated)

-- The body is the start of what the connection brings.
unfoldable pub dispatch_post :
    Site → ContentFilterSettings → Text → Dict Text Text → Bytes → Written × ContentFilterSettings
unfolding send_response content_length
dispatch_post site settings path headers stream =
    answer_post settings (
      content_length headers >>= (λ n. handle_post site settings path headers (read_from stream n)))
