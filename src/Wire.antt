-- ===== src/Wire.antt =====
-- Datagrams and packets. A `Datagram` is a call of one of the encoders of the native module
-- `akari_udp_py` (crates/akari_udp_py/src/lib.rs), with its arguments in the call's order; a
-- `Packet` is the dict that the decoders of that module return. `decode` and `wire_len` follow
-- crates/akari_udp_core/src/{encode_v3,decode_v3,encode,decode}.rs; the tags themselves (HMAC,
-- AEAD) are checked on the way and leave no trace in a packet, so they are not part of either type.
pub mod Bodies
use akari_proxy.Prelude.{
  ℕ, ◌+◌, ◌-◌, ◌/◌, ◌%◌, ◌^◌, Bool, true, false, ◌&&◌, Option, none, some, ◌++◌, ltb, ◌==◌,
  if◌then◌else◌, length, is_empty, Text, Bytes, take, drop,
}
use akari_proxy.Utf8

-- A bit of a flags byte: `flags & 0x40`, at the power of two `bit`.
unfoldable pub has_flag : ℕ → ℕ → Bool
has_flag flags bit = flags / bit % 2 == 1

-- `flags |= bit`
unfoldable pub set_flag : ℕ → ℕ → ℕ
unfolding has_flag
set_flag flags bit = if has_flag flags bit then flags else flags + bit

abbrev pub flag_encrypt : ℕ
flag_encrypt = 0x80

-- `FLAG_HAS_HEADER` of v2, the aggregate-tag flag of v3.
abbrev pub flag_has_header : ℕ
flag_has_header = 0x40

abbrev pub flag_agg_tag : ℕ
flag_agg_tag = 0x40

abbrev pub flag_short_id : ℕ
flag_short_id = 0x20

abbrev pub flag_short_len : ℕ
flag_short_len = 0x10

pub data Datagram : Type 0 where
  -- status_code body_len body_chunk message_id seq_total timestamp psk
  response_first_chunk : ℕ → ℕ → Bytes → ℕ → ℕ → ℕ → Bytes → Datagram
  -- body_chunk message_id seq seq_total timestamp psk
  response_chunk : Bytes → ℕ → ℕ → ℕ → ℕ → Bytes → Datagram
  -- status_code body_len header_block body_chunk message_id seq_total flags timestamp psk
  response_first_chunk_v2 : ℕ → ℕ → Bytes → Bytes → ℕ → ℕ → ℕ → ℕ → Bytes → Datagram
  -- body_chunk message_id seq seq_total flags timestamp psk
  response_chunk_v2 : Bytes → ℕ → ℕ → ℕ → ℕ → ℕ → Bytes → Datagram
  -- error_code http_status message message_id timestamp psk
  error_v1 error_v2 : ℕ → ℕ → Text → ℕ → ℕ → Bytes → Datagram
  -- message code http_status message_id flags psk
  error_v3 : Text → ℕ → ℕ → ℕ → ℕ → Bytes → Datagram
  -- status_code header_block body_len hdr_chunks hdr_idx seq_total_body flags message_id psk
  resp_head_v3 : ℕ → Bytes → ℕ → ℕ → ℕ → ℕ → ℕ → ℕ → Bytes → Datagram
  -- header_block hdr_idx hdr_chunks flags message_id psk
  resp_head_cont_v3 : Bytes → ℕ → ℕ → ℕ → ℕ → Bytes → Datagram
  -- body_chunk seq seq_total flags message_id psk
  resp_body_v3 : Bytes → ℕ → ℕ → ℕ → ℕ → Bytes → Datagram
  -- body_chunk seq seq_total flags message_id psk agg_tag
  resp_body_v3_agg : Bytes → ℕ → ℕ → ℕ → ℕ → Bytes → Option Bytes → Datagram
  -- url message_id timestamp psk
  request_v1 : Text → ℕ → ℕ → Bytes → Datagram
  -- method url header_block message_id timestamp flags psk
  request_v2 : Text → Text → Bytes → ℕ → ℕ → ℕ → Bytes → Datagram
  -- method url header_block message_id flags timestamp psk
  request_v3 : Text → Text → Bytes → ℕ → ℕ → ℕ → Bytes → Datagram
  -- first_lost_seq message_id timestamp psk
  ack_v2 : ℕ → ℕ → ℕ → Bytes → Datagram
  -- bitmap message_id timestamp psk
  nack_v2 : Bytes → ℕ → ℕ → Bytes → Datagram
  -- bitmap message_id flags psk
  nack_head_v3 nack_body_v3 : Bytes → ℕ → ℕ → Bytes → Datagram

-- `packet["payload"]`, by `packet["type"]`. A field that the dict may lack is an `Option`.
pub data Payload : Type 0 where
  -- url
  req : Text → Payload
  -- seq seq_total status_code body_len headers chunk
  resp : ℕ → ℕ → Option ℕ → Option ℕ → Option Bytes → Bytes → Payload
  -- first_lost_seq
  ack : ℕ → Payload
  -- bitmap
  nack nack_head nack_body : Bytes → Payload
  -- status_code body_len hdr_chunks hdr_idx seq_total_body headers
  resp_head : ℕ → ℕ → ℕ → ℕ → ℕ → Bytes → Payload
  -- hdr_idx hdr_chunks headers
  resp_head_cont : ℕ → ℕ → Bytes → Payload
  -- seq seq_total chunk agg_tag
  resp_body : ℕ → ℕ → Bytes → Option Bytes → Payload
  -- error_code http_status message
  error : ℕ → ℕ → Text → Payload

-- `packet["header"]`. A v3 header has no timestamp (0 here); the code reads it below version 3 only.
pub record Header : Type 0 where
  pub version : ℕ
  pub flags : ℕ
  pub message_id : ℕ
  pub seq_total : ℕ
  pub timestamp : ℕ

pub record Packet : Type 0 where
  pub header : Header
  pub payload : Payload

abbrev header_of : ℕ → ℕ → ℕ → ℕ → ℕ → Header
header_of version flags message_id seq_total timestamp = record {
  version = version;
  flags = flags;
  message_id = message_id;
  seq_total = seq_total;
  timestamp = timestamp;
}

abbrev v3_packet : ℕ → ℕ → ℕ → Payload → Option Packet
v3_packet flags message_id seq_total p =
    some (record { header = header_of 3 flags message_id seq_total 0; payload = p })

abbrev v2_packet : ℕ → ℕ → ℕ → ℕ → ℕ → Payload → Option Packet
v2_packet version flags message_id seq_total timestamp p =
    some (record { header = header_of version flags message_id seq_total timestamp; payload = p })

-- The message id as a short id keeps its low 16 bits.
abbrev id_on_wire : ℕ → ℕ → ℕ
id_on_wire flags message_id =
    if has_flag flags flag_short_id then message_id % 2 ^ 16 else message_id

-- The body length as the head carries it: 24 bits under the short-length flag.
abbrev len_on_wire : ℕ → ℕ → ℕ
len_on_wire flags body_len = if has_flag flags flag_short_len then body_len % 2 ^ 24 else body_len

-- Under the aggregate flag the decoder takes the last 16 bytes of the last body packet for the tag.
split_tag : Bool → Bytes → Option Bytes → Bytes × Option Bytes
split_tag true chunk (some tag) = (chunk, some tag)
split_tag true chunk none = (take (length chunk - 16) chunk, some (drop (length chunk - 16) chunk))
split_tag false chunk (some tag) = (chunk ++ tag, none)
split_tag false chunk none = (chunk, none)

body_packet : ℕ → ℕ → ℕ → ℕ → Bytes × Option Bytes → Option Packet
body_packet flags message_id seq seq_total (chunk, tag) =
    v3_packet flags (id_on_wire flags message_id) seq_total (resp_body seq seq_total chunk tag)

-- An encrypted body packet that carries the aggregate flag is refused: the decoder hands its AEAD
-- an empty tag (decode_v3.rs, `tag_bytes`).
decode_body : Bytes → ℕ → ℕ → ℕ → ℕ → Option Bytes → Option Packet
unfolding has_flag split_tag body_packet
decode_body chunk seq seq_total flags message_id tag =
    if has_flag flags flag_agg_tag && has_flag flags flag_encrypt
    then none
    else body_packet flags message_id seq seq_total (
        split_tag (has_flag flags flag_agg_tag && (ltb 0 seq_total && seq == seq_total - 1)) chunk
          tag)

-- The bitmap of a NACK is preceded by its length in one byte; a longer one is refused.
decode_nack : Bytes → (Bytes → Payload) → ℕ → ℕ → ℕ → ℕ → Option Packet
decode_nack bitmap kind version flags message_id timestamp =
    if ltb (length bitmap) 256
    then v2_packet version flags message_id 1 timestamp (kind bitmap)
    else none

-- What the receiver's decoder makes of a datagram under the sender's key.
unfoldable pub decode : Datagram → Option Packet
unfolding decode_body decode_nack
decode (response_first_chunk status body_len chunk mid total ts psk) =
    v2_packet 1 0 mid total ts (resp 0 total (some status) (some body_len) none chunk)
decode (response_chunk chunk mid seq total ts psk) =
    v2_packet 1 0 mid total ts (resp seq total none none none chunk)
decode (response_first_chunk_v2 status body_len hdr chunk mid total flags ts psk) =
    v2_packet 2 flags mid total ts
      (resp 0 total (some status) (some body_len) (if is_empty hdr then none else some hdr) chunk)
decode (response_chunk_v2 chunk mid seq total flags ts psk) =
    v2_packet 2 flags mid total ts (resp seq total none none none chunk)
decode (error_v1 code status message mid ts psk) =
    v2_packet 1 0 mid 1 ts (error code status message)
decode (error_v2 code status message mid ts psk) =
    v2_packet 2 0 mid 1 ts (error code status message)
decode (error_v3 message code status mid flags psk) =
    v3_packet flags (id_on_wire flags mid) 1 (error code status message)
decode (resp_head_v3 status hdr body_len chunks idx total flags mid psk) =
    v3_packet flags (id_on_wire flags mid) total
      (resp_head status (len_on_wire flags body_len) chunks idx total hdr)
decode (resp_head_cont_v3 hdr idx chunks flags mid psk) =
    v3_packet flags (id_on_wire flags mid) 0 (resp_head_cont idx chunks hdr)
decode (resp_body_v3 chunk seq total flags mid psk) = decode_body chunk seq total flags mid none
decode (resp_body_v3_agg chunk seq total flags mid psk tag) =
    decode_body chunk seq total flags mid tag
decode (request_v1 url mid ts psk) = v2_packet 1 0 mid 1 ts (req url)
decode (request_v2 method url hdr mid ts flags psk) = v2_packet 2 flags mid 1 ts (req url)
decode (request_v3 method url hdr mid flags ts psk) =
    v3_packet flags (id_on_wire flags mid) (ts / 2 ^ 16) (req url)
decode (ack_v2 first mid ts psk) = v2_packet 2 0 mid 1 ts (ack first)
decode (nack_v2 bitmap mid ts psk) = decode_nack bitmap nack 2 0 mid ts
decode (nack_head_v3 bitmap mid flags psk) =
    decode_nack bitmap nack_head 3 flags (id_on_wire flags mid) 0
decode (nack_body_v3 bitmap mid flags psk) =
    decode_nack bitmap nack_body 3 flags (id_on_wire flags mid) 0

-- `HeaderV3::encoded_len`, and the fixed header of v1 and v2.
v3_encoded_len : ℕ → ℕ
unfolding has_flag
v3_encoded_len flags = 12 + (if has_flag flags flag_short_id then 2 else 8)

abbrev legacy_len : ℕ
legacy_len = 24

abbrev pub tag_len : ℕ
tag_len = 16

tag_size : Option Bytes → ℕ
tag_size none = 0
tag_size (some t) = length t

-- `len(datagram)`
unfoldable pub wire_len : Datagram → ℕ
unfolding v3_encoded_len tag_size Utf8.encode
wire_len (response_first_chunk status body_len chunk mid total ts psk) =
    legacy_len + 8 + length chunk + tag_len
wire_len (response_chunk chunk mid seq total ts psk) = legacy_len + length chunk + tag_len
wire_len (response_first_chunk_v2 status body_len hdr chunk mid total flags ts psk) =
    legacy_len + 8 + length hdr + length chunk + tag_len
wire_len (response_chunk_v2 chunk mid seq total flags ts psk) = legacy_len + length chunk + tag_len
wire_len (error_v1 code status message mid ts psk) =
    legacy_len + 8 + length (Utf8.encode message) + tag_len
wire_len (error_v2 code status message mid ts psk) =
    legacy_len + 8 + length (Utf8.encode message) + tag_len
wire_len (error_v3 message code status mid flags psk) =
    v3_encoded_len flags + 3 + length (Utf8.encode message) + tag_len
wire_len (resp_head_v3 status hdr body_len chunks idx total flags mid psk) =
    v3_encoded_len flags
    + (2 + (if has_flag flags flag_short_len then 3 else 4) + 2 + length hdr)
    + tag_len
wire_len (resp_head_cont_v3 hdr idx chunks flags mid psk) =
    v3_encoded_len flags + (2 + length hdr) + tag_len
wire_len (resp_body_v3 chunk seq total flags mid psk) =
    v3_encoded_len flags + length chunk + tag_len
wire_len (resp_body_v3_agg chunk seq total flags mid psk tag) =
    v3_encoded_len flags
    + (length chunk + tag_size tag)
    + (if has_flag flags flag_encrypt then tag_len else 0)
wire_len (request_v1 url mid ts psk) = legacy_len + 4 + length (Utf8.encode url) + tag_len
wire_len (request_v2 method url hdr mid ts flags psk) =
    legacy_len + 5 + length (Utf8.encode url) + length hdr + tag_len
wire_len (request_v3 method url hdr mid flags ts psk) =
    v3_encoded_len flags + 5 + length (Utf8.encode url) + length hdr + tag_len
wire_len (ack_v2 first mid ts psk) = legacy_len + 2 + tag_len
wire_len (nack_v2 bitmap mid ts psk) = legacy_len + 1 + length bitmap + tag_len
wire_len (nack_head_v3 bitmap mid flags psk) = v3_encoded_len flags + 1 + length bitmap + tag_len
wire_len (nack_body_v3 bitmap mid flags psk) = v3_encoded_len flags + 1 + length bitmap + tag_len
