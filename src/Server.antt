-- ===== src/Server.antt =====
-- py/akari/udp_server.py: the server that hands one datagram at a time to its handler.
pub mod Serving
pub mod Async
pub mod Pool
use akari_proxy.Prelude.{
  true, all, ◌+◌, ◌&&◌, ℕ, ◌-◌, min, max, Bool, Option, none, some, List, [], ◌∷◌, leb,
  if◌then◌else◌, length, Text, Bytes, nat_eq, text_key,
}
use akari_proxy.Prelude.Decimal.{ℤ}
use akari_proxy.Exceptions.{Exn, Result, ok, raise, ◌>>=◌, raise_unless, out_of_range, payload_size}
use akari_proxy.Handler.Sizes.{response_first_overhead}
use akari_proxy.Wire.{
  Datagram, Packet, response_first_chunk, response_first_chunk_v2, error_v1, error_v2,
}
use akari_proxy.Handler.State.{IncomingRequest, State}
use akari_proxy.Client.Config.{positive}

pub record AkariUdpServer : Type 0 where
  pub psk : Bytes
  pub buffer_size : ℕ
  pub payload_max : Option ℕ
  pub plpmtud : Bool

-- The limit under what the MTU leaves.
abbrev pub limit_by : Option ℕ → Option ℕ → Option ℕ
limit_by base none = base
limit_by none (some m) = some (max 256 (m - 120))
limit_by (some b) (some m) = some (min b (max 256 (m - 120)))

-- `mtu` is what the socket says, `none` where it says nothing.
unfoldable pub dynamic_payload_cap : Option ℕ → Option ℤ → Option ℕ
dynamic_payload_cap payload_max mtu = limit_by payload_max (positive mtu)

-- How `recvfrom` ends: ConnectionResetError, socket.timeout, or with a datagram of which the decoder
-- makes a packet or an exception.
pub data Arrival : Type 0 where
  reset timed_out : Arrival
  datagram : Result Packet → Arrival

-- What `handle_next` does: it returns `None`, raises before it sends, sends the answer and returns the
-- request, or raises where `sendto` does, once the datagrams before were sent.
pub data Served : Type 0 where
  nothing : Served
  raised : Exn → Served
  answered : IncomingRequest → List Datagram → Served
  interrupted : List Datagram → Served

unfoldable pub request_of : AkariUdpServer → Option ℤ → Packet → IncomingRequest
unfolding dynamic_payload_cap
request_of server mtu packet = record {
  header = packet.header;
  payload = packet.payload;
  psk = server.psk;
  buffer_size = some server.buffer_size;
  payload_max =
      if server.plpmtud then dynamic_payload_cap server.payload_max mtu else server.payload_max;
}

-- The datagrams before the first that cannot be sent.
abbrev pub until_failure : (Datagram → Bool) → List Datagram → List Datagram
until_failure sendto [] = []
until_failure sendto (d ∷ ds) =
    let rest = until_failure sendto ds in if sendto d then d ∷ rest else []

-- The handler's answer is sent, unless it raises. `sendto` says which datagrams the socket takes; at one
-- that it does not take it raises.
abbrev pub send_answer :
    (Datagram → Bool) → IncomingRequest → Result (List Datagram) × State → Served × State
send_answer sendto request (raise e, s) = (raised e, s)
send_answer sendto request (ok datagrams, s) = (
  if all sendto datagrams
      then answered request datagrams
      else interrupted (until_failure sendto datagrams),
  s,
)

-- A socket that takes all datagrams.
abbrev pub reliable : Datagram → Bool
reliable d = true

unfoldable pub handle_next :
    AkariUdpServer
    → Option ℤ
    → (Datagram → Bool)
    → (IncomingRequest → State → Result (List Datagram) × State)
    → Arrival
    → State
    → Served × State
unfolding request_of
handle_next server mtu sendto handler reset s = (nothing, s)
handle_next server mtu sendto handler timed_out s = (nothing, s)
handle_next server mtu sendto handler (datagram (raise e)) s = (raised e, s)
handle_next server mtu sendto handler (datagram (ok packet)) s =
    let request = request_of server mtu packet in send_answer sendto request (handler request s)

-- The native encoders of version 1 and 2 for the one chunk of a response: the arguments are 16 and 32
-- bits wide, and the payload has at most 65535 bytes.
unfoldable pub encode_success_response : IncomingRequest → Bytes → ℕ → ℕ → Result (List Datagram)
encode_success_response request body status_code seq_total = do
  let header = request.header
  _ ←
      raise_unless out_of_range
        (leb status_code 0xffff && (leb (length body) 0xffff_ffff && leb seq_total 0xffff))
  _ ← payload_size (response_first_overhead + length body)
  ok (
      (if leb 2 header.version
        then response_first_chunk_v2 status_code (length body) [] body header.message_id seq_total 0
            header.timestamp request.psk
        else response_first_chunk status_code (length body) body header.message_id seq_total
            header.timestamp request.psk)
      ∷ [])

unfoldable pub encode_error_response : IncomingRequest → ℕ → ℕ → Text → List Datagram
encode_error_response request error_code http_status message =
    let header = request.header in
    (if leb 2 header.version
      then error_v2 error_code http_status message header.message_id header.timestamp request.psk
      else error_v1 error_code http_status message header.message_id header.timestamp request.psk)
    ∷ []
