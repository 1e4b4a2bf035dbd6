-- ===== src/Fetching.antt =====
-- One page over the network: udp_client.py, udp_server.py and handler.py together.
use akari_proxy.Prelude.{
  ℕ, suc, ◌/◌, ◌^◌, ◌≤◌, ◌<◌, ◌≡◌, refl, ap, ◌∙◌, subst, Bool, true, false, Option, none, List, [],
  ◌∷◌, ◌++◌, map, leb, All, All-prefix, Text, Bytes, nat_eq, text_key,
}
use akari_proxy.Prelude.Dict.{get}
use akari_proxy.Prelude.Decimal.{ℤ}
use akari_proxy.Prelude.Str.{strip}
use akari_proxy.Exceptions.{Result, ok}
use akari_proxy.Wire.{Datagram, Packet, req, decode, has_flag}
use akari_proxy.Handler.Headers.{Headers, shrink_headers, order_headers}
use akari_proxy.Handler.Headers.Limited.{Takes}
use akari_proxy.Handler.State.{IncomingRequest, HttpResponse, State, Clock, second, remember}
use akari_proxy.Handler.Respond.{keep_answer, encode_success_datagrams, header_cap}
use akari_proxy.Handler.Respond.Shape.{chunk_count, v3_answer, success_datagrams_v3}
use akari_proxy.Handler.HttpCache.{purge_http_cache, maybe_store_http_cache}
use akari_proxy.Handler.Requests.{answer_result, handle_request}
use akari_proxy.Handler.Requests.Answers.{handle_request-miss}
use akari_proxy.Server.Serving.{send_answer-reliable}
use akari_proxy.Server.{
  reliable, AkariUdpServer, datagram, answered, request_of, send_answer, handle_next,
}
use akari_proxy.Client.Headers.{decode_header_block}
use akari_proxy.Client.Headers.RoundTrip.{IsText, collect, decode_header_block-block_bytes}
use akari_proxy.Client.Config.{ClientConfig}
use akari_proxy.Client.Exchange.{ResponseOutcome, done, make_request, start}
use akari_proxy.Client.Loop.{run}
use akari_proxy.Client.Loop.Arrivals.{parsed, arrival, coming_later, Delivered}
use akari_proxy.Client.Loop.Delivery.{run_delivers}

-- A plain v3 request as the server's decoder gives it.
abbrev pub request_packet : Text → ℕ → ℕ → Packet
request_packet url message_id timestamp = record {
  header = record {
    version = 3;
    flags = 0;
    message_id = message_id;
    seq_total = timestamp / 2 ^ 16;
    timestamp = 0;
  };
  payload = req url;
}

-- The client's request is read as it was meant.
request_read :
    (config : ClientConfig) (url : Text) (message_id timestamp : ℕ)
    → leb 3 config.version ≡ true
    → config.use_encryption ≡ false
    → config.short_id ≡ false
    → parsed (make_request config url message_id timestamp none).datagram
      ≡ ok (request_packet url message_id timestamp)
unfolding make_request decode has_flag
request_read config url message_id timestamp v e s = rw (v, e, s) refl

module _ (hmac_sha256 : Bytes → Bytes → Bytes) (fetch : Text → Result HttpResponse) where
  -- A response that the fetch gives is answered.
  answer_response :
      (request : IncomingRequest) (url : Text) (response : HttpResponse) (clock : Clock) (s : State)
      → leb 3 request.header.version ≡ true
      → leb (chunk_count request response.body) 0xffff ≡ true
      → (block : Bytes) × (truncated : Bool) × Takes
          (header_cap request)
          []
          (order_headers (shrink_headers 256 response.headers))
          block
          truncated
        × (answer_result hmac_sha256 fetch request url clock s (ok response) ≡ (
          ok (v3_answer hmac_sha256 request response block),
          remember request.header.message_id
              (v3_answer hmac_sha256 request response block)
              clock
              (maybe_store_http_cache url response clock.at_store s),
        ))
  unfolding encode_success_datagrams
  answer_response request url response clock s v few =
      let (block, truncated, t, e) =
        success_datagrams_v3 hmac_sha256 request response (clock.at_encode / second) v in
      (
        block,
        truncated,
        t,
        ap (keep_answer request clock (maybe_store_http_cache url response clock.at_store s))
            (rw few at e),
      )

-- A client of version 3 and a server with the same key; the client asks for a URL that the server's
-- cache does not hold. The fetch gives a response of at most 65535 body packets whose headers are
-- texts that UTF-8 can hold. The server, whose socket takes every datagram, answers the client's; the
-- client, which receives the head packet and then all body packets in any order, with any datagram repeated, returns the
-- response: its status, its whole body and those of its headers that the answer took.
pub page_arrives :
    (hmac_sha256 : Bytes → Bytes → Bytes) (fetch : Text → Result HttpResponse)
    (server : AkariUdpServer) (mtu : Option ℤ) (config : ClientConfig) (c : ℕ) (url : Text)
    (message_id timestamp : ℕ) (response : HttpResponse) (clock : Clock) (s : State) (began now : ℕ)
    (order : List (ℕ × ℕ))
    → leb 3 config.version ≡ true
    → config.use_encryption ≡ false
    → config.short_id ≡ false
    → config.psk ≡ server.psk
    → s.require_encryption ≡ false
    → get s.http_cache (strip (c ∷ url)) ≡ none
    → fetch (strip (c ∷ url)) ≡ ok response
    → All IsText (order_headers (shrink_headers 256 response.headers))
    → let request = request_of server mtu (request_packet (c ∷ url) message_id timestamp) in
      let sent = make_request config (c ∷ url) message_id timestamp none in
      leb (chunk_count request response.body) 0xffff ≡ true
      → All (λ x. x.0 ≤ chunk_count request response.body) order
      → ((i : ℕ) → i < chunk_count request response.body → coming_later (suc i) order ≡ true)
      → (answer : List Datagram) × (s' : State) × (taken left : Headers)
        × (outcome : ResponseOutcome) × (order_headers (shrink_headers 256 response.headers)
            ≡ taken ++ left)
        × (handle_next server mtu reliable
              (λ r. handle_request hmac_sha256 fetch r clock)
              (datagram (parsed sent.datagram))
              s
            ≡ (answered request answer, s'))
        × (run hmac_sha256 config sent
              (map (arrival answer) ((0, now) ∷ order))
              (start config sent began)
            ≡ ok (done outcome))
        × Delivered response (collect [] taken) outcome
unfolding handle_next request_of has_flag
page_arrives hmac_sha256 fetch server mtu config c url message_id timestamp response clock s began
      now order v e h k r miss f texts few within_order covered =
    let request : IncomingRequest =
      request_of server mtu (request_packet (c ∷ url) message_id timestamp) in
    let (block, truncated, t, a) =
      answer_response hmac_sha256 fetch request (strip (c ∷ url)) response clock
        (purge_http_cache clock.at_start s) refl few in
    let handled =
      handle_request-miss hmac_sha256 fetch request c url response clock s refl r miss f ∙ a in
    let read : decode_header_block block ≡ ok (collect [] t.taken) =
      ap decode_header_block t.encodes
      ∙ decode_header_block-block_bytes t.taken
          (All-prefix IsText t.taken t.left (subst (All IsText) t.splits texts)) in
    let (outcome, ran, delivered) =
      run_delivers hmac_sha256 request response refl block (collect [] t.taken) read config
        (make_request config (c ∷ url) message_id timestamp none) v k began now order within_order
        covered in
    (
      v3_answer hmac_sha256 request response block,
      _,
      t.taken,
      t.left,
      outcome,
      t.splits,
      ap
            (λ p.
              handle_next server mtu reliable (λ q. handle_request hmac_sha256 fetch q clock)
                (datagram p) s)
            (request_read config (c ∷ url) message_id timestamp v e h)
          ∙ ap (send_answer reliable request) handled
          ∙ send_answer-reliable request (v3_answer hmac_sha256 request response block) _,
      ran,
      delivered,
    )
