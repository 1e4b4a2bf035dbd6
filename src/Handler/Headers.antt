-- ===== src/Handler/Headers.antt =====
-- The header block of handler.py: `encode_header_block`, `_shrink_headers` and
-- `_encode_header_block_limited`.
pub mod Block
pub mod Limited
use akari_proxy.Prelude.{
  ℕ, ◌+◌, ◌-◌, ◌/◌, ◌%◌, Bool, true, false, Option, none, some, List, [], ◌∷◌, ◌++◌, ltb,
  if◌then◌else◌, length, take, Text, Bytes, text_key,
}
use akari_proxy.Prelude.Dict.{Dict, get, put, pop}
use akari_proxy.Prelude.Str.{codes, lower, one_of}
use akari_proxy.Exceptions.{Result, ok, raise, value_error, ◌>>=◌}
use akari_proxy.Utf8

abbrev pub Headers : Type 0
Headers = Dict Text Text

abbrev pub static_header_ids : Dict Text ℕ
static_header_ids =
    (codes "content-type", 1)
    ∷ (codes "content-length", 2)
    ∷ (codes "cache-control", 3)
    ∷ (codes "etag", 4)
    ∷ (codes "last-modified", 5)
    ∷ (codes "date", 6)
    ∷ (codes "server", 7)
    ∷ (codes "content-encoding", 8)
    ∷ (codes "accept-ranges", 9)
    ∷ (codes "set-cookie", 10)
    ∷ (codes "location", 11)
    ∷ []

unfoldable pub static_id : Text → Option ℕ
static_id name = get static_header_ids name

unfoldable pub varint_u16 : ℕ → Result Bytes
varint_u16 value =
    if ltb 0xffff value
    then raise (value_error (codes "value out of range for u16 varint"))
    else ok ((value / 256) ∷ (value % 256) ∷ [])

-- What one header yields; nothing if it is skipped.
encode_named : Text → Bytes → Option ℕ → Result Bytes
unfolding varint_u16
encode_named lname value_bytes (some id) = do
  len ← varint_u16 (length value_bytes)
  ok (id ∷ len ++ value_bytes)
encode_named lname value_bytes none =
    let name_bytes = Utf8.encode lname in
    if ltb 0xff (length name_bytes) then ok [] else (do
      len ← varint_u16 (length value_bytes)
      ok (0 ∷ length name_bytes ∷ (name_bytes ++ (len ++ value_bytes))))

unfoldable pub encode_header_item : Text → Text → Result Bytes
unfolding encode_named
encode_header_item name value =
    let lname = lower name in
    let value_bytes = Utf8.encode value in
    if ltb 0xffff (length value_bytes)
    then ok []
    else encode_named lname value_bytes (static_id lname)

unfoldable pub encode_header_block : Headers → Result Bytes
encode_header_block [] = ok []
encode_header_block ((name, value) ∷ headers) = do
  item ← encode_header_item name value
  rest ← encode_header_block headers
  ok (item ++ rest)

abbrev pub headers_whitelist : List Text
headers_whitelist =
    codes "content-type"
    ∷ codes "content-length"
    ∷ codes "cache-control"
    ∷ codes "etag"
    ∷ codes "last-modified"
    ∷ codes "date"
    ∷ codes "server"
    ∷ codes "content-encoding"
    ∷ codes "accept-ranges"
    ∷ codes "location"
    ∷ []

-- A long value is cut at `value_max` bytes, which may break its last character.
shrink_value : ℕ → Text → Text
shrink_value value_max value =
    let vbytes = Utf8.encode value in
    Utf8.decode (if ltb value_max (length vbytes) then take value_max vbytes else vbytes)

shrink_onto : ℕ → Headers → Headers → Headers
unfolding shrink_value
shrink_onto value_max out [] = out
shrink_onto value_max out ((name, value) ∷ headers) =
    shrink_onto value_max
      (if one_of headers_whitelist (lower name)
        then put out (lower name) (shrink_value value_max value)
        else out)
      headers

unfoldable pub shrink_headers : ℕ → Headers → Headers
unfolding shrink_onto
shrink_headers value_max headers = shrink_onto value_max [] headers

-- `{k.lower(): v for k, v in headers.items()}`
lowered_onto : Headers → Headers → Headers
lowered_onto out [] = out
lowered_onto out ((k, v) ∷ headers) = lowered_onto (put out (lower k) v) headers

unfoldable pub lower_keys : Headers → Headers
unfolding lowered_onto
lower_keys headers = lowered_onto [] headers

-- The two loops that order the headers: those of the priority list first, then the rest.
move_first : List Text → Headers → Headers → Headers × Headers
move_first [] normalized block_headers = (normalized, block_headers)
move_first (key ∷ priority) normalized block_headers =
    let found = get normalized key in
    move_first priority (elim found [ none ↦ normalized | some v ↦ pop normalized key ])
      (elim found [ none ↦ block_headers | some v ↦ put block_headers key v ])

move_rest : Headers → Headers → Headers
move_rest [] block_headers = block_headers
move_rest ((key, v) ∷ normalized) block_headers = move_rest normalized (
    if one_of (codes "set-cookie" ∷ codes "cookie" ∷ []) key
    then block_headers
    else put block_headers key v)

unfoldable pub order_headers : Headers → Headers
unfolding move_first move_rest
order_headers headers =
    let (normalized, block_headers) = move_first headers_whitelist (lower_keys headers) [] in
    move_rest normalized block_headers

-- Headers are taken in order while they fit; the flag says that one did not.
unfoldable pub take_headers : ℕ → Bytes → Headers → Result (Bytes × Bool)
take_headers cap encoded [] = ok (encoded, false)
take_headers cap encoded ((k, v) ∷ headers) = do
  trial ← encode_header_block ((k, v) ∷ [])
  elim (ltb cap (length encoded + length trial)) [
    | true ↦ ok (encoded, true)
    | false ↦ take_headers cap (encoded ++ trial) headers
  ]

unfoldable pub encode_header_block_limited : Headers → ℕ → Result (Bytes × Bool)
unfolding take_headers
encode_header_block_limited headers cap = take_headers cap [] (order_headers headers)
