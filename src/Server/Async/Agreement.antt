-- ===== src/Server/Async/Agreement.antt =====
-- The two servers beside each other.
use akari_proxy.Prelude.{
  all, &&-true, ap₂, ℕ, ◌≤◌, ◌≡◌, refl, sym, ap, ◌∙◌, ◌↔◌, inl, inr, Bool, true, Option, some, List,
  [], ◌∷◌, map, arith, if◌then◌else◌, Bool-cases, keep, Bytes, nat_eq, text_key,
}
use akari_proxy.Prelude.Decimal.{ℤ}
use akari_proxy.Exceptions.{Result, ok, raise, ok_inj, ok≢raise}
use akari_proxy.Wire.{Datagram, Packet}
use akari_proxy.Handler.State.{IncomingRequest, State}
use akari_proxy.Server.Serving.{all-reliable}
use akari_proxy.Server.{
  AkariUdpServer, dynamic_payload_cap, datagram, request_of, handle_next, send_answer,
  until_failure, reliable,
}
use akari_proxy.Server.Async.{
  Handler, is_v3, AsyncSettings, or_largest, answer_of, process_packet, process_datagram,
  handle_and_send, Incoming, connection_reset, failed, bytes, receive_one, recv_loop, arrival_of,
  arrivals_of, sent_of, serve_remote_proxy,
}

-- The synchronous server with the settings of the other.
abbrev pub server_of : AsyncSettings → AkariUdpServer
server_of settings = record {
  psk = settings.psk;
  buffer_size = settings.buffer_size;
  payload_max = settings.payload_max;
  plpmtud = settings.plpmtud;
}

abbrev cap_of : AsyncSettings → Option ℤ → Option ℕ
cap_of settings mtu =
    if settings.plpmtud then dynamic_payload_cap settings.payload_max mtu else settings.payload_max

until_failure-all :
    (sendto : Datagram → Bool) (ds : List Datagram)
    → all sendto ds ≡ true
    → until_failure sendto ds ≡ ds
until_failure-all sendto [] h = refl
until_failure-all sendto (d ∷ ds) h =
    let (first, rest) = &&-true (sendto d) _ h in
    rw first (ap (◌∷◌ d) (until_failure-all sendto ds rest))

-- What of an answer the synchronous server sends.
abbrev halted : (Datagram → Bool) → List Datagram × State → List Datagram × State
halted sendto r = (until_failure sendto r.0, r.1)

or_largest-positive : (n : ℕ) → 1 ≤ n → or_largest n ≡ n
or_largest-positive n h = ground arith

module _ (decode_v3 : Bytes → Result Packet) (decode_auto : Bytes → Result Packet)
    (settings : AsyncSettings) (mtu : Option ℤ) where
  -- Only the packet counts, not the exception.
  same_packet :
      (handler : Handler) (a b : Result Packet) (s : State)
      → ((p : Packet) → (a ≡ ok p) ↔ (b ≡ ok p))
      → process_packet decode_v3 decode_auto settings (cap_of settings mtu) handler a s
        ≡ process_packet decode_v3 decode_auto settings (cap_of settings mtu) handler b s
  same_packet handler (raise e) (raise f) s h = refl
  same_packet handler (raise e) (ok p) s h = absurd (ok≢raise (sym ((h p).1 refl)))
  same_packet handler (ok p) (raise f) s h = absurd (ok≢raise (sym ((h p).0 refl)))
  same_packet handler (ok p) (ok q) s h = rw (ok_inj ((h p).0 refl)) refl

  sent-answer :
      (sendto : Datagram → Bool) (request : IncomingRequest)
      (result : Result (List Datagram) × State)
      → (sent_of (send_answer sendto request result).0, (send_answer sendto request result).1)
        ≡ halted sendto (answer_of result)
  sent-answer sendto request (raise e, s) = refl
  sent-answer sendto request (ok datagrams, s) = elim (Bool-cases (all sendto datagrams)) [
    | inl e ↦ rw e (ap (λ x. (x, s)) (sym (until_failure-all sendto datagrams e)))
    | inr e ↦ rw e refl
  ]

  handle_next-process :
      (sendto : Datagram → Bool) (handler : Handler) (parsed : Result Packet) (s : State)
      → 1 ≤ settings.buffer_size
      → let (served, next) =
          handle_next (server_of settings) mtu sendto handler (datagram parsed) s in
        (sent_of served, next)
        ≡ halted sendto
            (process_packet decode_v3 decode_auto settings (cap_of settings mtu) handler parsed s)
  unfolding handle_next request_of
  handle_next-process sendto handler (raise e) s h = refl
  handle_next-process sendto handler (ok packet) s h =
      sent-answer sendto (request_of (server_of settings) mtu packet)
        (handler (request_of (server_of settings) mtu packet) s)
      ∙ ap
          (λ n. halted sendto (
            answer_of (
              handler
                (record {
                  header = packet.header;
                  payload = packet.payload;
                  psk = settings.psk;
                  buffer_size = some n;
                  payload_max = cap_of settings mtu;
                })
                s)))
          (sym (or_largest-positive settings.buffer_size h))

  module _ (sendto : Datagram → Bool) (buffered : 1 ≤ settings.buffer_size)
      (agree : (data_ : Bytes)
        → is_v3 data_ ≡ true
        → (p : Packet) → (decode_v3 data_ ≡ ok p) ↔ (decode_auto data_ ≡ ok p)) where
    chosen :
        (handler : Handler) (data_ : Bytes) (s : State)
        → process_datagram decode_v3 decode_auto settings (cap_of settings mtu) handler data_ s
          ≡ process_packet decode_v3 decode_auto settings
              (cap_of settings mtu)
              handler
              (decode_auto data_)
              s
    unfolding process_datagram
    chosen handler data_ s = elim (Bool-cases (is_v3 data_)) [
      | inl e ↦ rw e (same_packet handler (decode_v3 data_) (decode_auto data_) s (agree data_ e))
      | inr e ↦ rw e refl
    ]

    -- What the handler answers to an arrival, whatever is then sent.
    answer_to : Handler → Incoming → State → List Datagram × State
    answer_to handler connection_reset s = ([], s)
    answer_to handler failed s = ([], s)
    answer_to handler (bytes data_) s =
        process_packet decode_v3 decode_auto settings (cap_of settings mtu) handler
          (decode_auto data_) s

    receive_one-answer :
        (handler : Handler) (incoming : Incoming) (s : State)
        → receive_one decode_v3 decode_auto settings mtu sendto handler incoming s
          ≡ (keep sendto (answer_to handler incoming s).0, (answer_to handler incoming s).1)
    unfolding answer_to handle_and_send
    receive_one-answer handler connection_reset s = refl
    receive_one-answer handler failed s = refl
    receive_one-answer handler (bytes data_) s =
        ap (λ r. (keep sendto r.0, r.1)) (chosen handler data_ s)

    -- What the synchronous server sends, on any socket.
    serve_one-answer :
        (any_socket : Datagram → Bool) (handler : Handler) (incoming : Incoming) (s : State)
        → let (served, next) =
            handle_next
              (server_of settings)
              mtu
              any_socket
              handler
              (arrival_of decode_v3 decode_auto incoming)
              s in
          (sent_of served, next) ≡ halted any_socket (answer_to handler incoming s)
    unfolding answer_to handle_next
    serve_one-answer any_socket handler connection_reset s = refl
    serve_one-answer any_socket handler failed s = refl
    serve_one-answer any_socket handler (bytes data_) s =
        handle_next-process any_socket handler (decode_auto data_) s buffered

    -- The answers to a sequence of arrivals.
    answers : List (Handler × Incoming) → State → List (List Datagram) × State
    answers [] s = ([], s)
    answers ((handler, incoming) ∷ events) s =
        let (answer, next) = answer_to handler incoming s in
        let (later, last) = answers events next in (answer ∷ later, last)

    recv_loop-answers :
        (events : List (Handler × Incoming)) (s : State)
        → recv_loop decode_v3 decode_auto settings mtu sendto events s
          ≡ (map (keep sendto) (answers events s).0, (answers events s).1)
    unfolding recv_loop answers
    recv_loop-answers [] s = refl
    recv_loop-answers ((handler, incoming) ∷ events) s =
        rw
          (
            receive_one-answer handler incoming s,
            recv_loop-answers events (answer_to handler incoming s).1,
          )
          refl

    serve_remote_proxy-answers :
        (any_socket : Datagram → Bool) (events : List (Handler × Incoming)) (s : State)
        → serve_remote_proxy
            (server_of settings)
            mtu
            any_socket
            (arrivals_of decode_v3 decode_auto events)
            s
          ≡ (map (until_failure any_socket) (answers events s).0, (answers events s).1)
    unfolding serve_remote_proxy answers
    serve_remote_proxy-answers any_socket [] s = refl
    serve_remote_proxy-answers any_socket ((handler, incoming) ∷ events) s =
        let one = serve_one-answer any_socket handler incoming s in
        rw
          (
            ap (λ x. x.0) one,
            ap (λ x. x.1) one,
            serve_remote_proxy-answers any_socket events (answer_to handler incoming s).1,
          )
          refl

    until_failure-reliable : (ds : List (List Datagram)) → map (until_failure reliable) ds ≡ ds
    until_failure-reliable [] = refl
    until_failure-reliable (d ∷ ds) =
        ap₂ ◌∷◌ (until_failure-all reliable d (all-reliable d)) (until_failure-reliable ds)

    -- Let two servers have the same settings, a buffer that is not empty, the same MTU and sockets that
    -- take the same datagrams, and let `served` be what the synchronous one sends on a socket that takes
    -- all. Of each answer of `served` the asynchronous one sends the datagrams that its socket takes, the
    -- synchronous one those before the first that it does not take, and both come to the same state; on
    -- any sequence of arrivals, exceptions of the decoder and of the handler included; the tasks run in
    -- order. The decoder for v3 accepts what the general one accepts, of the datagrams of that version.
    pub recv_loop-serve_remote_proxy :
        (events : List (Handler × Incoming)) (s : State)
        → let arrivals = arrivals_of decode_v3 decode_auto events in
          let served = serve_remote_proxy (server_of settings) mtu reliable arrivals s in
          (recv_loop decode_v3 decode_auto settings mtu sendto events s
            ≡ (map (keep sendto) served.0, served.1))
          × (serve_remote_proxy (server_of settings) mtu sendto arrivals s
              ≡ (map (until_failure sendto) served.0, served.1))
    recv_loop-serve_remote_proxy events s =
        let full =
          serve_remote_proxy-answers reliable events s
          ∙ ap (λ x. (x, (answers events s).1)) (until_failure-reliable (answers events s).0) in
        (
          recv_loop-answers events s ∙ ap (λ r. (map (keep sendto) r.0, r.1)) (sym full),
          serve_remote_proxy-answers sendto events s
              ∙ ap (λ r. (map (until_failure sendto) r.0, r.1)) (sym full),
        )
