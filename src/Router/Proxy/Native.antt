-- ===== src/Router/Proxy/Native.antt =====
-- The router with the client that hands requests to the native one.
use akari_proxy.Prelude.{some, ℕ, ◌≡◌, refl, Bool, true, false, not, ◌&&◌, Text, nat_eq, text_key}
use akari_proxy.Exceptions.{ok}
use akari_proxy.Client.Exchange.{ResponseOutcome}
use akari_proxy.Client.RustBacked.{
  RequestConfig, RustArgs, RustReply, replied, timeout_error, raised, request_config, rust_outcome,
  rust_send_request,
}
use akari_proxy.ContentFilter.{ContentFilterSettings, blocked, evaluate}
use akari_proxy.Router.Parameters.{is_http}
use akari_proxy.Router.Proxy.{
  RouteResult, Answer, responds, shapes, answer_outcome, fetch_via_udp, proxy_target,
}

-- A page is handed on to be shaped; a timeout is answered by 504, and any other exception by 502.
abbrev pub Conveys : Text → ℕ → RustReply → Answer → Type 0
Conveys url message_id (replied status headers body stats) answer =
    (outcome : ResponseOutcome) × (answer ≡ shapes url outcome)
    × (outcome.message_id ≡ message_id)
    × (outcome.status_code ≡ some status)
    × (outcome.headers ≡ some headers)
    × (outcome.body ≡ some body)
    × (outcome.bytes_sent ≡ stats.bytes_sent)
    × (outcome.bytes_received ≡ stats.bytes_received)
Conveys url message_id timeout_error answer =
    (result : RouteResult) × (answer ≡ responds result) × (result.status_code ≡ 504)
Conveys url message_id (raised message) answer =
    (result : RouteResult) × (answer ≡ responds result) × (result.status_code ≡ 502)

reply-Conveys :
    (url : Text) (message_id : ℕ) (reply : RustReply)
    → Conveys url message_id reply (answer_outcome url (rust_outcome message_id reply))
unfolding answer_outcome rust_outcome
reply-Conveys url message_id (replied status headers body stats) =
    (_, refl, refl, refl, refl, refl, refl, refl)
reply-Conveys url message_id timeout_error = (_, refl, refl)
reply-Conveys url message_id (raised message) = (_, refl, refl)

-- For an HTTP or HTTPS URL that the filter lets pass, the page that the native client got is handed on
-- whole, with its counts; its TimeoutError becomes a 504 and any other exception of it a 502.
pub proxy_target-Conveys :
    (settings : ContentFilterSettings)
    → (native : RequestConfig → Text → RustReply) (args : RustArgs) (message_id : ℕ)
    → (url : Text) (skip_filter : Bool) → is_http url ≡ true
    → (not skip_filter && blocked (evaluate settings url)) ≡ false
    → Conveys url message_id (native (request_config args) url) (
        proxy_target settings
          (λ u. ok (rust_send_request native args u message_id))
          url
          skip_filter)
unfolding proxy_target fetch_via_udp rust_send_request
proxy_target-Conveys settings native args message_id url skip_filter http passes =
    rw (passes, http) (reply-Conveys url message_id (native (request_config args) url))
