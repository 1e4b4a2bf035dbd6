-- ===== src/Client/RustBacked.antt =====
-- `RustBackedAkariUdpClient` of py/akari/udp_client.py, which hands requests to the native client, and
-- `_new_udp_client` of py/akari/web_proxy/router.py. What the native client does is an argument. Times
-- are microseconds.
use akari_proxy.Prelude.{
  ℕ, ◌/◌, Bool, true, false, Option, none, some, [], Text, Bytes, nat_eq, text_key,
}
use akari_proxy.Prelude.Decimal.{ℤ, pos, negsuc}
use akari_proxy.Handler.Headers.{Headers}
use akari_proxy.Client.Exchange.{ResponseOutcome, client_error}

-- The configuration that the native client takes; times in milliseconds.
pub record RequestConfig : Type 0 where
  pub timeout_ms : ℕ
  pub max_nack_rounds : Option ℕ
  pub initial_request_retries : ℕ
  pub sock_timeout_ms : ℕ
  pub first_seq_timeout_ms : ℕ
  pub df : Bool
  pub agg_tag : Bool
  pub payload_max : Option ℕ
  pub short_id : Bool

-- The arguments of the constructor that it does not ignore.
pub record RustArgs : Type 0 where
  pub timeout : Option ℤ
  pub max_nack_rounds : Option ℕ
  pub initial_request_retries : ℕ
  pub sock_timeout : ℕ
  pub first_seq_timeout : ℕ
  pub df : Bool
  pub agg_tag : Bool
  pub payload_max : Option ℕ
  pub short_id : Bool

-- `int(timeout * 1000) if timeout > 0 else 0`, where no timeout is 10 s
unfoldable pub timeout_ms_of : Option ℤ → ℕ
timeout_ms_of none = 10_000
timeout_ms_of (some (pos n)) = n / 1000
timeout_ms_of (some (negsuc n)) = 0

unfoldable pub request_config : RustArgs → RequestConfig
unfolding timeout_ms_of
request_config args = record {
  timeout_ms = timeout_ms_of args.timeout;
  max_nack_rounds = args.max_nack_rounds;
  initial_request_retries = args.initial_request_retries;
  sock_timeout_ms = args.sock_timeout / 1000;
  first_seq_timeout_ms = args.first_seq_timeout / 1000;
  df = args.df;
  agg_tag = args.agg_tag;
  payload_max = args.payload_max;
  short_id = args.short_id;
}

-- How the native client ends: a response with its counts, TimeoutError, or another exception.
pub record Stats : Type 0 where
  pub bytes_sent : ℕ
  pub bytes_received : ℕ
  pub nacks_sent : ℕ
  pub request_retries : ℕ

pub data RustReply : Type 0 where
  replied : ℕ → Headers → Bytes → Stats → RustReply
  timeout_error : RustReply
  raised : Text → RustReply

unfoldable pub rust_outcome : ℕ → RustReply → ResponseOutcome
rust_outcome message_id (replied status headers body stats) = record {
  message_id = message_id;
  packets = [];
  body = some body;
  status_code = some status;
  headers = some headers;
  error = none;
  complete = true;
  timed_out = false;
  bytes_sent = stats.bytes_sent;
  bytes_received = stats.bytes_received;
  nacks_sent = stats.nacks_sent;
  request_retries = stats.request_retries;
}
rust_outcome message_id timeout_error = record {
  message_id = message_id;
  packets = [];
  body = none;
  status_code = none;
  headers = none;
  error = none;
  complete = false;
  timed_out = true;
  bytes_sent = 0;
  bytes_received = 0;
  nacks_sent = 0;
  request_retries = 0;
}
rust_outcome message_id (raised message) = record {
  message_id = message_id;
  packets = [];
  body = none;
  status_code = none;
  headers = none;
  error = some (client_error message);
  complete = false;
  timed_out = false;
  bytes_sent = 0;
  bytes_received = 0;
  nacks_sent = 0;
  request_retries = 0;
}

-- A request of the client: neither the timestamp nor a ready datagram is used.
unfoldable pub rust_send_request :
    (RequestConfig → Text → RustReply) → RustArgs → Text → ℕ → ResponseOutcome
unfolding rust_outcome request_config
rust_send_request native args url message_id =
    rust_outcome message_id (native (request_config args) url)
