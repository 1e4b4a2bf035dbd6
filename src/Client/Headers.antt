-- ===== src/Client/Headers.antt =====
-- `decode_header_block` of udp_client.py. A position in the block is the list of bytes from there.
pub mod RoundTrip
use akari_proxy.Prelude.{
  ℕ, zero, suc, ◌+◌, ◌*◌, Option, none, some, [], ◌∷◌, ◌++◌, ltb, ◌==◌, if◌then◌else◌, length, take,
  drop, or_else, Text, Bytes, text_key, nat_eq,
}
use akari_proxy.Prelude.Dict.{Dict, get, put}
use akari_proxy.Prelude.Str.{codes}
use akari_proxy.Prelude.Decimal.{decimal}
use akari_proxy.Exceptions.{Result, ok, raise, value_error, ◌>>=◌}
use akari_proxy.Utf8
use akari_proxy.Handler.Headers.{Headers}

abbrev pub static_header_names : Dict ℕ Text
static_header_names =
    (1, codes "content-type")
    ∷ (2, codes "content-length")
    ∷ (3, codes "cache-control")
    ∷ (4, codes "etag")
    ∷ (5, codes "last-modified")
    ∷ (6, codes "date")
    ∷ (7, codes "server")
    ∷ (8, codes "content-encoding")
    ∷ (9, codes "accept-ranges")
    ∷ (10, codes "set-cookie")
    ∷ (11, codes "location")
    ∷ []

-- The value, and the position behind it.
unfoldable pub read_varint_u16 : Bytes → Result (ℕ × Bytes)
read_varint_u16 (hi ∷ lo ∷ rest) = ok (hi * 256 + lo, rest)
read_varint_u16 _ = raise (value_error (codes "varint truncated"))

-- An entry and the position behind it; `none` where the loop breaks.
abbrev Entry : Type 0
Entry = Option ((Text × Text) × Bytes)

read_value : Text → Bytes → Result Entry
unfolding read_varint_u16
read_value name buf = do
  (val_len, rest) ← read_varint_u16 buf
  if ltb (length rest) val_len
      then ok none
      else ok (some ((name, Utf8.decode (take val_len rest)), drop val_len rest))

read_named : Bytes → Result Entry
unfolding read_value
read_named [] = ok none
read_named (name_len ∷ rest) =
    if ltb (length rest) name_len
    then ok none
    else read_value (Utf8.decode (take name_len rest)) (drop name_len rest)

static_name : ℕ → Text
static_name hid = or_else (get static_header_names hid) (codes "x-unknown-" ++ decimal hid)

read_entry : ℕ → Bytes → Result Entry
unfolding read_named static_name
read_entry hid rest = if hid == 0 then read_named rest else read_value (static_name hid) rest

-- Each round takes a byte at least, so the length of the block is fuel enough.
pub decode_loop : ℕ → Bytes → Headers → Result Headers
unfolding read_entry
decode_loop zero buf headers = ok headers
decode_loop (suc fuel) [] headers = ok headers
decode_loop (suc fuel) (hid ∷ rest) headers = do
  entry ← read_entry hid rest
  elim entry [
    | none ↦ ok headers
    | some ((name, value), rest') ↦ decode_loop fuel rest' (put headers name value)
  ]

unfoldable pub decode_header_block : Bytes → Result Headers
unfolding decode_loop
decode_header_block block = decode_loop (length block) block []
