-- ===== src/Handler/Sizes.antt =====
-- The sizes of handler.py: how many payload bytes fit into one datagram.
use akari_proxy.Prelude.{
  ℕ, zero, suc, ◌+◌, ◌-◌, ◌≤◌, ◌<◌, ◌≡◌, max, min, Bool, true, false, Option, none, some, arith,
  leb, if◌then◌else◌,
}
use akari_proxy.Wire.{has_flag, flag_short_id}

abbrev pub default_max_datagram : ℕ
default_max_datagram = 1150

abbrev pub proto_overhead : ℕ
proto_overhead = 24 + 16

abbrev pub udp_ip_overhead : ℕ
udp_ip_overhead = 48

abbrev pub safety_margin : ℕ
safety_margin = 32

abbrev pub response_first_overhead : ℕ
response_first_overhead = 8

abbrev pub v3_tag : ℕ
v3_tag = 16

-- `x if x and x > 0 else d`
abbrev positive_or : Option ℕ → ℕ → ℕ
positive_or none d = d
positive_or (some zero) d = d
positive_or (some (suc n)) d = suc n

unfoldable pub max_datagram_size : Option ℕ → Option ℕ → ℕ
max_datagram_size none payload_max = positive_or payload_max default_max_datagram
max_datagram_size (some zero) payload_max = positive_or payload_max default_max_datagram
max_datagram_size (some (suc n)) payload_max =
    min (suc n) (positive_or payload_max default_max_datagram)

unfoldable pub v3_header_len : ℕ → ℕ
v3_header_len flags =
    let use_short_id = has_flag flags flag_short_id in
    6 + (if use_short_id then 2 else 8) + 2 + 2 + 2

overhead : ℕ → ℕ → Bool → ℕ
unfolding v3_header_len
overhead version flags include_tag =
    if leb 3 version
    then udp_ip_overhead + v3_header_len flags + (if include_tag then v3_tag else 0) + safety_margin
    else udp_ip_overhead + proto_overhead + safety_margin

unfoldable pub payload_cap : Option ℕ → Option ℕ → ℕ → ℕ → Bool → ℕ
unfolding overhead
payload_cap buffer_size payload_max version flags include_tag =
    let max_dgram = max_datagram_size buffer_size payload_max in
    max (max_dgram - overhead version flags include_tag) 1

-- The caps of the first chunk and of the later ones.
unfoldable pub calc_payload_caps : Option ℕ → ℕ → Option ℕ → ℕ → ℕ → Bool → ℕ × ℕ
calc_payload_caps buffer_size header_block_len payload_max version flags include_tag =
    let base_cap = payload_cap buffer_size payload_max version flags include_tag in
    if leb 3 version
    then (base_cap, base_cap)
    else (max (base_cap - response_first_overhead - header_block_len - 64) 1, base_cap)

-- A cap is never zero, so that the loops over a body advance.
pub payload_cap_pos :
    (buffer_size payload_max : Option ℕ) (version flags : ℕ) (include_tag : Bool)
    → 0 < payload_cap buffer_size payload_max version flags include_tag
unfolding payload_cap
payload_cap_pos buffer_size payload_max version flags include_tag = omega arith

pub calc_payload_caps_pos :
    (buffer_size : Option ℕ) (header_block_len : ℕ) (payload_max : Option ℕ) (version flags : ℕ)
    (include_tag : Bool)
    → (0 < (calc_payload_caps buffer_size header_block_len payload_max version flags include_tag).0)
      × (0
          < (calc_payload_caps buffer_size header_block_len payload_max version flags
              include_tag).1)
unfolding calc_payload_caps
calc_payload_caps_pos buffer_size header_block_len payload_max version flags include_tag =
    ground (arith, payload_cap_pos buffer_size payload_max version flags include_tag)

-- The largest datagram is at most what either limit allows.
pub max_datagram_size-le :
    (buffer_size payload_max : ℕ)
    → 0 < buffer_size
    → 0 < payload_max
    → (max_datagram_size (some buffer_size) (some payload_max) ≤ buffer_size)
      × (max_datagram_size (some buffer_size) (some payload_max) ≤ payload_max)
unfolding max_datagram_size
max_datagram_size-le (suc b) (suc p) h k = omega arith
max_datagram_size-le zero p h k = absurd (omega arith)
max_datagram_size-le (suc b) zero h k = absurd (omega arith)

-- A v3 packet with a full message id has 116 bytes of overhead and margin.
pub payload_cap_v3 :
    (buffer_size payload_max : Option ℕ) (version flags : ℕ)
    → leb 3 version ≡ true
    → has_flag flags flag_short_id ≡ false
    → payload_cap buffer_size payload_max version flags true
      ≡ max (max_datagram_size buffer_size payload_max - 116) 1
unfolding payload_cap
payload_cap_v3 buffer_size payload_max version flags h k = ground arith
