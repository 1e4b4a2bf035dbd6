-- ===== src/Client/Exchange.antt =====
-- The local variables of `AkariUdpClient._send_request_unlocked`, how its loop is entered and what it
-- sends: each sending adds the datagram's length to the bytes sent.
use akari_proxy.Prelude.{
  ℕ, ◌+◌, ◌-◌, Bool, true, false, Option, none, some, List, [], ◌∷◌, ◌++◌, ltb, leb, if◌then◌else◌,
  Text, Bytes, nat_eq, text_key,
}
use akari_proxy.Prelude.Str.{codes}
use akari_proxy.Exceptions.{Result}
use akari_proxy.Wire.{
  Datagram, Packet, request_v1, request_v2, request_v3, wire_len, set_flag, flag_encrypt,
  flag_short_id,
}
use akari_proxy.Handler.Headers.{Headers}
use akari_proxy.Client.Config.{ClientConfig}
use akari_proxy.Client.Accumulator.{ResponseAccumulator, new_accumulator}
use akari_proxy.Client.Missing.{missing_seq_list, sanitize_missing}

-- The payload of an error packet, or what the client itself found.
pub data ErrorPayload : Type 0 where
  server_error : ℕ → ℕ → Text → ErrorPayload
  client_error : Text → ErrorPayload

pub record ResponseOutcome : Type 0 where
  pub message_id : ℕ
  pub packets : List Packet
  pub body : Option Bytes
  pub status_code : Option ℕ
  pub headers : Option Headers
  pub error : Option ErrorPayload
  pub complete : Bool
  pub timed_out : Bool
  pub bytes_sent : ℕ
  pub bytes_received : ℕ
  pub nacks_sent : ℕ
  pub request_retries : ℕ

-- The local variables of the loop.
pub record Exchange : Type 0 where
  pub packets : List Packet
  pub accumulator : ResponseAccumulator
  pub error_payload : Option ErrorPayload
  pub bytes_sent : ℕ
  pub bytes_received : ℕ
  pub acks_sent : ℕ
  pub agg_mode : Bool
  pub last_activity : ℕ
  pub nacks_sent : ℕ
  pub req_retries_left : ℕ
  pub sent : List Datagram

-- The request to send: its datagram, message id and timestamp.
pub record Request : Type 0 where
  pub datagram : Datagram
  pub message_id : ℕ
  pub timestamp : ℕ

pub data Event : Type 0 where
  -- ConnectionResetError
  connection_reset : Event
  -- socket.timeout, with `time.monotonic()`
  socket_timeout : ℕ → Event
  -- a datagram: its length, what the decoders make of it, and `time.monotonic()`
  received : ℕ → Result Packet → ℕ → Event

-- How an iteration of the loop ends.
pub data Step : Type 0 where
  again : Exchange → Step
  done : ResponseOutcome → Step

-- The datagram of a request, unless the caller brings one.
unfoldable pub make_request : ClientConfig → Text → ℕ → ℕ → Option Datagram → Request
make_request config url message_id timestamp (some datagram) = record {
  datagram = datagram;
  message_id = message_id;
  timestamp = timestamp;
}
make_request config url message_id timestamp none =
    let flags = if config.use_encryption then flag_encrypt else 0 in
    let datagram =
      if leb 3 config.version
      then request_v3 (codes "get") url [] message_id
          (if config.short_id then set_flag flags flag_short_id else flags) timestamp config.psk
      else if leb 2 config.version
      then request_v2 (codes "get") url [] message_id timestamp flags config.psk
      else request_v1 url message_id timestamp config.psk in
    record { datagram = datagram; message_id = message_id; timestamp = timestamp }

-- The first sending.
unfoldable pub start : ClientConfig → Request → ℕ → Exchange
start config request now = record {
  packets = [];
  accumulator = new_accumulator request.message_id;
  error_payload = none;
  bytes_sent = wire_len request.datagram;
  bytes_received = 0;
  acks_sent = 0;
  agg_mode = false;
  last_activity = now;
  nacks_sent = 0;
  req_retries_left = config.initial_request_retries;
  sent = request.datagram ∷ [];
}

-- `sock.sendto(d, addr); bytes_sent += len(d)`
unfoldable pub send : Datagram → Exchange → Exchange
send d st = record st { bytes_sent = st.bytes_sent + wire_len d; sent = st.sent ++ (d ∷ []) }

unfoldable pub send_nack : Datagram → Exchange → Exchange
unfolding send
send_nack d st = record (send d st) { nacks_sent = st.nacks_sent + 1 }

unfoldable pub send_ack : Datagram → Exchange → Exchange
unfolding send
send_ack d st = record (send d st) { acks_sent = st.acks_sent + 1 }

abbrev pub at_time : ℕ → Exchange → Exchange
at_time now st = record st { last_activity = now }

-- `self._max_nack_rounds is None or nacks_sent < self._max_nack_rounds`
unfoldable pub allow_nack : ClientConfig → Exchange → Bool
allow_nack config st = elim config.max_nack_rounds [
  | none ↦ true
  | some rounds ↦ ltb st.nacks_sent rounds
]

-- What is missing of the body.
abbrev pub missing_seqs : Exchange → List ℕ
missing_seqs st = sanitize_missing (missing_seq_list st.accumulator) st.accumulator

unfoldable pub give_up : ClientConfig → Request → Exchange → ResponseOutcome
give_up config request st = record {
  message_id = request.message_id;
  packets = st.packets;
  body = none;
  status_code = none;
  headers = none;
  error = none;
  complete = false;
  timed_out = true;
  bytes_sent = st.bytes_sent;
  bytes_received = st.bytes_received;
  nacks_sent = st.nacks_sent;
  request_retries = config.initial_request_retries - st.req_retries_left;
}
