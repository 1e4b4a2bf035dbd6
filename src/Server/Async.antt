-- ===== src/Server/Async.antt =====
-- py/akari/remote_proxy/async_server.py: what becomes of a datagram, and server.py beside it. The
-- tasks run one after another here, in the order in which their datagrams arrive; sockets, logging and
-- the interleaving of tasks that wait for a fetch are not modelled.
pub mod Agreement
use akari_proxy.Prelude.{
  ℕ, Bool, false, Option, none, some, List, [], ◌∷◌, ◌==◌, if◌then◌else◌, get_elem?, keep, Bytes,
  nat_eq, text_key,
}
use akari_proxy.Prelude.Decimal.{ℤ}
use akari_proxy.Exceptions.{Result, ok, raise}
use akari_proxy.Wire.{Datagram, Packet}
use akari_proxy.Handler.State.{IncomingRequest, State}
use akari_proxy.Server.{
  AkariUdpServer, dynamic_payload_cap, Arrival, reset, timed_out, datagram, Served, nothing, raised,
  answered, interrupted, handle_next,
}

-- What the handlers do with a request.
abbrev pub Handler : Type 0
Handler = IncomingRequest → State → Result (List Datagram) × State

-- `len(data) >= 3 and data[2] == 3`
unfoldable pub is_v3 : Bytes → Bool
is_v3 data_ = elim (get_elem? data_ 2) [ none ↦ false | some version ↦ version == 3 ]

-- What `serve_remote_proxy_async` is called with.
pub record AsyncSettings : Type 0 where
  pub psk : Bytes
  pub buffer_size : ℕ
  pub payload_max : Option ℕ
  pub plpmtud : Bool

-- `buffer_size or 65535`
abbrev pub or_largest : ℕ → ℕ
or_largest buffer_size = if buffer_size == 0 then 65535 else buffer_size

-- The handler's answer, unless it raises.
abbrev pub answer_of : Result (List Datagram) × State → List Datagram × State
answer_of (raise e, s) = ([], s)
answer_of (ok datagrams, s) = (datagrams, s)

module _ (decode_v3 : Bytes → Result Packet) (decode_auto : Bytes → Result Packet) where
  -- What `_process_datagram` answers; `None` is no datagram.
  abbrev pub process_packet :
      AsyncSettings → Option ℕ → Handler → Result Packet → State → List Datagram × State
  process_packet settings payload_max handler (raise e) s = ([], s)
  process_packet settings payload_max handler (ok packet) s = answer_of (
      handler
        (record {
          header = packet.header;
          payload = packet.payload;
          psk = settings.psk;
          buffer_size = some (or_largest settings.buffer_size);
          payload_max = payload_max;
        })
        s)

  unfoldable pub process_datagram :
      AsyncSettings → Option ℕ → Handler → Bytes → State → List Datagram × State
  unfolding is_v3
  process_datagram settings payload_max handler data_ s =
      process_packet settings payload_max handler
        (if is_v3 data_ then decode_v3 data_ else decode_auto data_) s

  -- `handle_and_send`: a datagram that cannot be sent is left out. `mtu` is read once, at the start.
  unfoldable pub handle_and_send :
      AsyncSettings → Option ℤ → (Datagram → Bool) → Handler → Bytes → State → List Datagram × State
  unfolding process_datagram
  handle_and_send settings mtu sendto handler data_ s =
      let payload_max =
        if settings.plpmtud
        then dynamic_payload_cap settings.payload_max mtu
        else settings.payload_max in
      let (datagrams, after) = process_datagram settings payload_max handler data_ s in
      (keep sendto datagrams, after)

-- How `recvfrom` ends: ConnectionResetError, another exception, or with a datagram.
pub data Incoming : Type 0 where
  connection_reset failed : Incoming
  bytes : Bytes → Incoming

module _ (decode_v3 : Bytes → Result Packet) (decode_auto : Bytes → Result Packet) where
  abbrev pub receive_one :
      AsyncSettings
      → Option ℤ
      → (Datagram → Bool)
      → Handler
      → Incoming
      → State
      → List Datagram × State
  receive_one settings mtu sendto handler connection_reset s = ([], s)
  receive_one settings mtu sendto handler failed s = ([], s)
  receive_one settings mtu sendto handler (bytes data_) s =
      handle_and_send decode_v3 decode_auto settings mtu sendto handler data_ s

  -- The turns of `recv_loop`; each event brings the handler of its time.
  unfoldable pub recv_loop :
      AsyncSettings
      → Option ℤ
      → (Datagram → Bool)
      → List (Handler × Incoming)
      → State
      → List (List Datagram) × State
  unfolding handle_and_send
  recv_loop settings mtu sendto [] s = ([], s)
  recv_loop settings mtu sendto ((handler, incoming) ∷ events) s =
      let (sent, next) = receive_one settings mtu sendto handler incoming s in
      let (later, last) = recv_loop settings mtu sendto events next in (sent ∷ later, last)

  -- The arrival that the synchronous server sees.
  abbrev pub arrival_of : Incoming → Arrival
  arrival_of connection_reset = reset
  arrival_of failed = timed_out
  arrival_of (bytes data_) = datagram (decode_auto data_)

  abbrev pub arrivals_of : List (Handler × Incoming) → List (Handler × Arrival)
  arrivals_of [] = []
  arrivals_of ((handler, incoming) ∷ events) = (handler, arrival_of incoming) ∷ arrivals_of events

-- The datagrams that were sent; an exception is logged by `serve_remote_proxy`, which goes on.
abbrev pub sent_of : Served → List Datagram
sent_of nothing = []
sent_of (raised e) = []
sent_of (answered request datagrams) = datagrams
sent_of (interrupted datagrams) = datagrams

-- The turns of `serve_remote_proxy`.
unfoldable pub serve_remote_proxy :
    AkariUdpServer
    → Option ℤ
    → (Datagram → Bool)
    → List (Handler × Arrival)
    → State
    → List (List Datagram) × State
unfolding handle_next
serve_remote_proxy server mtu sendto [] s = ([], s)
serve_remote_proxy server mtu sendto ((handler, arrival) ∷ events) s =
    let (served, next) = handle_next server mtu sendto handler arrival s in
    let (later, last) = serve_remote_proxy server mtu sendto events next in
    (sent_of served ∷ later, last)
