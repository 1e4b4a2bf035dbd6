-- ===== src/Router/Proxy.antt =====
-- `_execute_proxy`, from the checks of the URL to what the client's outcome becomes.
pub mod Soundness
pub mod Native
use akari_proxy.Prelude.{
  ℕ, zero, suc, ◌+◌, ◌-◌, ◌/◌, Bool, true, false, not, ◌&&◌, ◌||◌, Option, none, some, [], ◌∷◌,
  ◌++◌, if◌then◌else◌, is_some, or_else, length, Text, Bytes, nat_eq, text_key,
}
use akari_proxy.Prelude.Dict.{Dict, put, has}
use akari_proxy.Prelude.Decimal.{decimal}
use akari_proxy.Prelude.Str.{codes}
use akari_proxy.Exceptions.{message_of, Result, ok, raise, value_error}
use akari_proxy.Utf8
use akari_proxy.Client.Exchange.{ResponseOutcome, ErrorPayload, server_error, client_error}
use akari_proxy.ContentFilter.{ContentFilterSettings, FilterDecision, blocked, evaluate}
use akari_proxy.Router.Parameters.{normalize_user_input, is_http}

pub record RouteResult : Type 0 where
  pub status_code : ℕ
  pub body : Bytes
  pub headers : Dict Text Text

-- A finished answer, or the target and the outcome that `_raw_response` shapes into one.
pub data Answer : Type 0 where
  responds : RouteResult → Answer
  shapes : Text → ResponseOutcome → Answer

unfoldable pub text_response : ℕ → Text → RouteResult
text_response status message =
    let body = Utf8.encode message in
    record {
      status_code = status;
      body = body;
      headers =
          (codes "Content-Type", codes "text/plain; charset=utf-8")
          ∷ (codes "Content-Length", decimal (length body))
          ∷ [];
    }

-- `headers.setdefault(k, v)`
abbrev set_default : Dict Text Text → Text → Text → Dict Text Text
set_default headers k v = if has headers k then headers else put headers k v

unfoldable pub filtered_response : FilterDecision → RouteResult
filtered_response decision = record {
  status_code = or_else decision.status_code 204;
  body = decision.body;
  headers = set_default decision.headers (codes "Content-Type") (codes "text/plain; charset=utf-8");
}

-- `payload.get("message") or f"AKARI error code={…}"`, and `int(payload.get("http_status", 502) or 502)`
abbrev error_message : ErrorPayload → Text
error_message (server_error code status []) = codes "AKARI error code=" ++ decimal code
error_message (server_error code status (c ∷ message)) = c ∷ message
error_message (client_error []) = codes "AKARI error code=None"
error_message (client_error (c ∷ message)) = c ∷ message

abbrev pub error_status : ErrorPayload → ℕ
error_status (server_error code zero message) = 502
error_status (server_error code (suc n) message) = suc n
error_status (client_error message) = 502

-- The outcome's error, whether it timed out, and whether something is missing, tested in this order.
settle : Text → ResponseOutcome → Option ErrorPayload → Bool → Bool → Answer
unfolding text_response
settle target_url outcome (some payload) timed_out missing =
    responds (text_response (error_status payload) (error_message payload))
settle target_url outcome none true missing =
    responds (text_response 504 (codes "AKARI-UDP レスポンスがタイムアウトしました。"))
settle target_url outcome none false true = responds (text_response 502 (codes "レスポンスが揃いませんでした。"))
settle target_url outcome none false false = shapes target_url outcome

-- What the outcome of the request becomes.
unfoldable pub answer_outcome : Text → ResponseOutcome → Answer
unfolding settle
answer_outcome target_url outcome =
    settle target_url outcome outcome.error outcome.timed_out
      (not outcome.complete || not (is_some outcome.body))

-- Every exception of the client becomes a ValueError.
abbrev wrap_failure : Result ResponseOutcome → Result ResponseOutcome
wrap_failure (ok outcome) = ok outcome
wrap_failure (raise e) = raise (value_error (codes "AKARI-UDP リクエストに失敗: " ++ message_of e))

unfoldable pub fetch_via_udp : (Text → Result ResponseOutcome) → Text → Result ResponseOutcome
fetch_via_udp send_request url =
    if not (is_http url)
    then raise (value_error (codes "HTTP/HTTPS のみサポートします。"))
    else wrap_failure (send_request url)

abbrev answer_fetched : Text → Result ResponseOutcome → Answer
answer_fetched target_url (ok outcome) = answer_outcome target_url outcome
answer_fetched target_url (raise e) = responds (text_response 502 (message_of e))

-- A URL that passed the checks.
unfoldable pub proxy_target :
    ContentFilterSettings → (Text → Result ResponseOutcome) → Text → Bool → Answer
unfolding filtered_response fetch_via_udp answer_outcome
proxy_target settings send_request target_url skip_filter =
    if not skip_filter && blocked (evaluate settings target_url)
    then responds (filtered_response (evaluate settings target_url))
    else answer_fetched target_url (fetch_via_udp send_request target_url)

proxy_normalized :
    ContentFilterSettings → (Text → Result ResponseOutcome) → Option Text → Bool → Answer
unfolding proxy_target
proxy_normalized settings send_request (some (c ∷ url)) skip_filter =
    proxy_target settings send_request (c ∷ url) skip_filter
proxy_normalized settings send_request _ skip_filter =
    responds (text_response 400 (codes "HTTP/HTTPS の URL を指定してください。"))

-- `send_request` is the client's, on a fresh message id.
unfoldable pub execute_proxy :
    ContentFilterSettings → (Text → Result ResponseOutcome) → Text → Bool → Answer
unfolding proxy_normalized
execute_proxy settings send_request [] skip_filter =
    responds (text_response 400 (codes "url パラメータを指定してください。"))
execute_proxy settings send_request (c ∷ raw_url) skip_filter =
    proxy_normalized settings send_request (normalize_user_input (c ∷ raw_url)) skip_filter
