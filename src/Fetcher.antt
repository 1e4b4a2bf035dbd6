-- ===== src/Fetcher.antt =====
-- py/akari/remote_proxy/http_client.py: `fetch`. What `urlopen` does is its argument.
pub mod Safety
pub mod Async
use akari_proxy.Prelude.{
  ℕ, ◌+◌, ◌-◌, ◌/◌, Bool, not, List, [], ◌∷◌, ◌++◌, ltb, if◌then◌else◌, length, is_empty, take,
  keep, Text, Bytes, nat_eq, text_key,
}
use akari_proxy.Prelude.Dict.{put}
use akari_proxy.Prelude.Decimal.{decimal}
use akari_proxy.Prelude.Str.{codes, lower, strip, one_of}
use akari_proxy.Exceptions.{
  Exn, Result, ok, raise, invalid_url_error, body_too_large_error, timeout_fetch_error, fetch_error,
  other_error, ◌>>=◌,
}
use akari_proxy.Url.{url_scheme, url_netloc}
use akari_proxy.Handler.Headers.{Headers}
use akari_proxy.Handler.State.{HttpResponse}

abbrev pub headers_blacklist : List Text
headers_blacklist =
    codes "x-frame-options"
    ∷ codes "content-security-policy"
    ∷ codes "content-security-policy-report-only"
    ∷ codes "strict-transport-security"
    ∷ codes "cross-origin-opener-policy"
    ∷ codes "cross-origin-embedder-policy"
    ∷ codes "cross-origin-resource-policy"
    ∷ codes "x-xss-protection"
    ∷ codes "x-content-type-options"
    ∷ codes "permissions-policy"
    ∷ codes "feature-policy"
    ∷ []

abbrev pub is_blacklisted : Text → Bool
is_blacklisted key = one_of headers_blacklist (lower key)

unfoldable pub strip_security_headers : Headers → Headers
strip_security_headers headers = keep (λ x. not (is_blacklisted x.0)) headers

-- `InvalidURLError(url)`, without the quoted URL at the message's end.
abbrev pub invalid_url : Exn
invalid_url = invalid_url_error (codes "サポート外か不正なURLです: ")

unfoldable pub normalize_url : Text → Result Text
normalize_url url =
    let normalized = strip url in
    if is_empty normalized
    then raise invalid_url
    else if not (one_of (codes "http" ∷ codes "https" ∷ []) (url_scheme normalized))
    then raise invalid_url
    else if is_empty (url_netloc normalized)
    then raise invalid_url
    else ok normalized

-- The request that is opened.
pub record Request : Type 0 where
  pub url : Text
  pub headers : Headers

unfoldable pub request_for : Text → Request
request_for normalized_url =
    let origin = url_scheme normalized_url ++ codes "://" ++ url_netloc normalized_url in
    record {
      url = normalized_url;
      headers =
          (codes "User-Agent", codes "AKARI-Proxy/0.1")
          ∷ (codes "Accept-Encoding", codes "br, gzip, deflate")
          ∷ (codes "Referer", origin ++ codes "/")
          ∷ (codes "Origin", origin)
          ∷ [];
    }

-- How `urlopen` and the reading end: a response with its whole body, HTTPError, socket.timeout,
-- URLError with a timeout or another reason, or any other exception.
pub data Opened : Type 0 where
  response : ℕ → List (Text × Text) → Bytes → Opened
  http_error : ℕ → Text → Opened
  timed_out url_timed_out : Opened
  url_error failure : Text → Opened

-- `{key: value for key, value in pairs}`
abbrev pub dict_onto : Headers → List (Text × Text) → Headers
dict_onto out [] = out
dict_onto out ((key, value) ∷ pairs) = dict_onto (put out key value) pairs

-- `f"{timeout}秒以内に…"`; `timeout` is the number as it is printed.
abbrev pub timeout_error : Text → Exn
timeout_error timeout = timeout_fetch_error (timeout ++ codes "秒以内にレスポンスを受信できませんでした")

-- `resp.read(max_bytes + 1)` reads one byte more than it may.
unfoldable pub receive : ℕ → Text → Opened → Result HttpResponse
unfolding strip_security_headers
receive max_bytes timeout (response status pairs whole) =
    let body = take (max_bytes + 1) whole in
    if ltb max_bytes (length body)
    then raise
        (body_too_large_error (codes "レスポンスボディが" ++ decimal max_bytes ++ codes "バイトの上限を超えました"))
    else ok (record {
      status_code = status;
      headers = strip_security_headers (dict_onto [] pairs);
      body = body;
    })
receive max_bytes timeout (http_error code reason) =
    raise (fetch_error (codes "HTTPエラー " ++ decimal code ++ codes ": " ++ reason))
receive max_bytes timeout timed_out = raise (timeout_error timeout)
receive max_bytes timeout url_timed_out = raise (timeout_error timeout)
receive max_bytes timeout (url_error reason) = raise (fetch_error reason)
receive max_bytes timeout (failure message) = raise (other_error message)

unfoldable pub fetch : (Request → Opened) → ℕ → Text → Text → Result HttpResponse
unfolding normalize_url request_for receive
fetch urlopen max_bytes timeout url = do
  normalized_url ← normalize_url url
  receive max_bytes timeout (urlopen (request_for normalized_url))
