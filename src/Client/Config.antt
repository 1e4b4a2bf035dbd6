-- ===== src/Client/Config.antt =====
-- `AkariUdpClient.__init__`, `_compute_payload_max` and `_max_datagram_size`. Times are microseconds.
use akari_proxy.Prelude.{
  ℕ, zero, suc, ◌-◌, min, max, Bool, true, false, Option, none, some, Bytes, nat_eq, text_key,
}
use akari_proxy.Prelude.Decimal.{ℤ, pos, negsuc}

-- The arguments of the constructor that the exchange depends on.
pub record ClientArgs : Type 0 where
  pub psk : Bytes
  pub timeout : Option ℤ
  pub buffer_size : ℕ
  pub protocol_version : ℕ
  pub max_nack_rounds : Option ℤ
  pub max_ack_rounds : ℤ
  pub use_encryption : Bool
  pub initial_request_retries : ℤ
  pub payload_max : Option ℤ
  pub plpmtud : Bool
  pub short_id : Bool

-- `max(0, n)`
abbrev pub clamp : ℤ → ℕ
clamp (pos n) = n
clamp (negsuc n) = 0

pub record ClientConfig : Type 0 where
  pub psk : Bytes
  pub timeout : Option ℕ
  pub buffer_size : ℕ
  pub version : ℕ
  pub max_nack_rounds : Option ℕ
  pub max_ack_rounds : ℕ
  pub use_encryption : Bool
  pub initial_request_retries : ℕ
  pub dyn_payload_max : Option ℕ
  pub short_id : Bool

-- A timeout that is not given is 10 s; one that is not positive is none.
unfoldable pub timeout_of : Option ℤ → Option ℕ
timeout_of none = some 10_000_000
timeout_of (some (pos zero)) = none
timeout_of (some (pos (suc n))) = some (suc n)
timeout_of (some (negsuc n)) = none

-- `n if n and n > 0 else None`
unfoldable pub positive : Option ℤ → Option ℕ
positive none = none
positive (some (pos zero)) = none
positive (some (pos (suc n))) = some (suc n)
positive (some (negsuc n)) = none

-- `mtu` is what the socket says, `none` where it says nothing.
unfoldable pub compute_payload_max : Option ℕ → Bool → Option ℤ → Option ℕ
compute_payload_max base false mtu = base
compute_payload_max base true mtu = elim (positive mtu) [
  | none ↦ base
  | some m ↦
      let estimated : ℕ = max 256 (m - 120) in
      elim base [ none ↦ some estimated | some b ↦ some (min b estimated) ]
]

unfoldable pub new_client : ClientArgs → Option ℤ → ClientConfig
unfolding compute_payload_max timeout_of positive
new_client args mtu = record {
  psk = args.psk;
  timeout = timeout_of args.timeout;
  buffer_size = args.buffer_size;
  version = args.protocol_version;
  max_nack_rounds = elim args.max_nack_rounds [ none ↦ none | some n ↦ some (clamp n) ];
  max_ack_rounds = clamp args.max_ack_rounds;
  use_encryption = args.use_encryption;
  initial_request_retries = clamp args.initial_request_retries;
  dyn_payload_max = compute_payload_max (positive args.payload_max) args.plpmtud mtu;
  short_id = args.short_id;
}

unfoldable pub max_datagram_size : ClientConfig → ℕ
max_datagram_size config = elim config.dyn_payload_max [
  | none ↦ min config.buffer_size 1200
  | some zero ↦ min config.buffer_size 1200
  | some (suc n) ↦ min config.buffer_size (suc n)
]
