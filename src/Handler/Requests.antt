-- ===== src/Handler/Requests.antt =====
-- `handle_request` and `handle_request_async`. The two differ in how they call the fetch, which is
-- the argument `fetch` here.
pub mod Errors
pub mod Answers
use akari_proxy.Prelude.{
  Bool, true, false, ℕ, ◌+◌, ◌-◌, not, ◌&&◌, Option, none, some, List, [], ◌∷◌, ◌++◌, leb,
  if◌then◌else◌, length, take, Text, Bytes, nat_eq, text_key,
}
use akari_proxy.Prelude.Str.{codes, strip}
use akari_proxy.Exceptions.{
  message_of, Exn, Result, ok, raise, invalid_url_error, body_too_large_error, timeout_fetch_error,
  fetch_error,
}
use akari_proxy.Wire.{
  Datagram, error_v1, error_v2, error_v3, Payload, req, resp, ack, nack, nack_head, nack_body,
  resp_head, resp_head_cont, resp_body, error, has_flag, flag_encrypt,
}
use akari_proxy.Handler.State.{IncomingRequest, HttpResponse, State, Clock}
use akari_proxy.Handler.Respond.{encode_success_datagrams}
use akari_proxy.Handler.Nack.{handle_nack, handle_ack}
use akari_proxy.Handler.HttpCache.{
  purge_http_cache, get_cached_http_response, maybe_store_http_cache,
}

abbrev pub error_invalid_url : ℕ
error_invalid_url = 10

abbrev pub error_response_too_large : ℕ
error_response_too_large = 11

abbrev pub error_timeout : ℕ
error_timeout = 20

abbrev pub error_upstream_failure : ℕ
error_upstream_failure = 30

abbrev pub error_unexpected : ℕ
error_unexpected = 255

abbrev pub error_unsupported_packet : ℕ
error_unsupported_packet = 254

unfoldable pub safe_message : Text → Text
safe_message message = if leb (length message) 200 then message else take 197 message ++ codes "..."

unfoldable pub encode_error : IncomingRequest → ℕ → ℕ → Text → List Datagram
unfolding safe_message
encode_error request error_code http_status message =
    let header = request.header in
    let text = safe_message message in
    (if leb 3 header.version
      then error_v3 text error_code http_status header.message_id 0 request.psk
      else if leb 2 header.version
      then error_v2 error_code http_status text header.message_id header.timestamp request.psk
      else error_v1 error_code http_status text header.message_id header.timestamp request.psk)
    ∷ []

-- `request.packet_type`
abbrev pub packet_type : Payload → Text
packet_type (req url) = codes "req"
packet_type (resp seq total status len headers chunk) = codes "resp"
packet_type (ack first) = codes "ack"
packet_type (nack bitmap) = codes "nack"
packet_type (nack_head bitmap) = codes "nack-head"
packet_type (nack_body bitmap) = codes "nack-body"
packet_type (resp_head status len chunks idx total headers) = codes "resp-head"
packet_type (resp_head_cont idx chunks headers) = codes "resp-head-cont"
packet_type (resp_body seq total chunk tag) = codes "resp-body"
packet_type (error code status message) = codes "error"

-- The classes that the `except` clauses name.
pub data ExnClass : Type 0 where
  invalid_url body_too_large timeout_fetch fetch_failed : ExnClass

-- `isinstance(exc, …)`: the others are subclasses of FetchError.
unfoldable pub is_instance : Exn → ExnClass → Bool
is_instance (invalid_url_error message) invalid_url = true
is_instance (body_too_large_error message) body_too_large = true
is_instance (timeout_fetch_error message) timeout_fetch = true
is_instance (invalid_url_error message) fetch_failed = true
is_instance (body_too_large_error message) fetch_failed = true
is_instance (timeout_fetch_error message) fetch_failed = true
is_instance (fetch_error message) fetch_failed = true
is_instance e c = false

-- The answer to an exception of the fetch: the first `except` clause of a class that it belongs to.
unfoldable pub fetch_failure : IncomingRequest → Exn → List Datagram
unfolding is_instance
fetch_failure request e =
    if is_instance e invalid_url
    then encode_error request error_invalid_url 400 (message_of e)
    else if is_instance e body_too_large
    then encode_error request error_response_too_large 502 (message_of e)
    else if is_instance e timeout_fetch
    then encode_error request error_timeout 504 (message_of e)
    else if is_instance e fetch_failed
    then encode_error request error_upstream_failure 502 (message_of e)
    else encode_error request error_unexpected 500 (codes "internal server error")

module _ (hmac_sha256 : Bytes → Bytes → Bytes) (fetch : Text → Result HttpResponse) where
  -- What the fetch gave is stored and answered, or reported.
  abbrev pub answer_result :
      IncomingRequest → Text → Clock → State → Result HttpResponse → Result (List Datagram) × State
  answer_result request url clock s (raise e) = (ok (fetch_failure request e), s)
  answer_result request url clock s (ok response) =
      encode_success_datagrams hmac_sha256 request response clock
        (maybe_store_http_cache url response clock.at_store s)

  -- From the fetch on, for a URL that the cache does not hold.
  unfoldable pub answer_fetched :
      IncomingRequest → Text → Clock → State → Result (List Datagram) × State
  answer_fetched request url clock s = answer_result request url clock s (fetch url)

  -- What the cache gave is answered, else what the fetch gives.
  abbrev pub serve :
      IncomingRequest → Text → Clock → Option HttpResponse × State → Result (List Datagram) × State
  serve request url clock (none, s) = answer_fetched request url clock s
  serve request url clock (some response, s) =
      encode_success_datagrams hmac_sha256 request response clock s

  -- A request for a URL that is not empty.
  unfoldable pub answer_url :
      IncomingRequest → Text → Clock → State → Result (List Datagram) × State
  answer_url request url clock s =
      let normalized_url = strip url in
      let found =
        get_cached_http_response normalized_url clock.at_start
          (purge_http_cache clock.at_start s) in
      serve request normalized_url clock found

  answer_req : IncomingRequest → Text → Clock → State → Result (List Datagram) × State
  answer_req request [] clock s =
      (ok (encode_error request error_invalid_url 400 (codes "payload.url is missing")), s)
  answer_req request (c ∷ url) clock s = answer_url request (c ∷ url) clock s

  dispatch : Payload → IncomingRequest → Clock → State → Result (List Datagram) × State
  unfolding answer_req
  dispatch (req url) request clock s =
      if s.require_encryption && not (has_flag request.header.flags flag_encrypt)
      then (
        ok (
            encode_error request error_unsupported_packet 400
              (codes "encryption required (set E flag)")),
        s,
      )
      else answer_req request url clock s
  dispatch (ack first) request clock s = (ok (handle_ack request s), s)
  dispatch (nack bitmap) request clock s = (ok (handle_nack request s), s)
  dispatch (nack_head bitmap) request clock s = (ok (handle_nack request s), s)
  dispatch (nack_body bitmap) request clock s = (ok (handle_nack request s), s)
  dispatch other request clock s = (
    ok (
        encode_error request error_unsupported_packet 400
          (codes "unsupported packet type: " ++ packet_type other)),
    s,
  )

  unfoldable pub handle_request : IncomingRequest → Clock → State → Result (List Datagram) × State
  unfolding dispatch
  handle_request request clock s = dispatch request.payload request clock s

  -- The asynchronous variant has the same body, with `fetch_async_func` awaited for `fetch_func`.
  unfoldable pub handle_request_async :
      IncomingRequest → Clock → State → Result (List Datagram) × State
  unfolding handle_request
  handle_request_async request clock s = handle_request request clock s
