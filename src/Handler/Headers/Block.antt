-- ===== src/Handler/Headers/Block.antt =====
-- What `encode_header_block` writes, with no exception in the way.
use akari_proxy.Prelude.{
  ℕ, ◌/◌, ◌%◌, ◌≡◌, refl, Bool, true, false, ◌&&◌, Option, none, some, [], ◌∷◌, ◌++◌, arith, ltb,
  leb, if◌then◌else◌, length, append_assoc, Bool-cases, inl, inr, is_some, Text, Bytes, sym, ◌∙◌,
}
use akari_proxy.Prelude.Str.{lower}
use akari_proxy.Exceptions.{ok}
use akari_proxy.Utf8
use akari_proxy.Handler.Headers.{
  Headers, static_id, varint_u16, encode_named, encode_header_item, encode_header_block,
}

abbrev pub u16_bytes : ℕ → Bytes
u16_bytes value = (value / 256) ∷ (value % 256) ∷ []

-- The entry of a header under its lower-case name.
abbrev pub entry : Text → Bytes → Option ℕ → Bytes
entry lname value (some id) = id ∷ (u16_bytes (length value) ++ value)
entry lname value none =
    0 ∷ length (Utf8.encode lname) ∷ (Utf8.encode lname ++ (u16_bytes (length value) ++ value))

-- Whether a header is sent, under its lower-case name; the others are left out.
abbrev pub is_sent : Text → Text → Bool
is_sent lname value =
    leb (length (Utf8.encode value)) 0xffff
    && (if is_some (static_id lname) then true else leb (length (Utf8.encode lname)) 0xff)

abbrev pub item_bytes : Text → Text → Bytes
item_bytes name value =
    if is_sent (lower name) value
    then entry (lower name) (Utf8.encode value) (static_id (lower name))
    else []

abbrev pub block_bytes : Headers → Bytes
block_bytes [] = []
block_bytes ((name, value) ∷ headers) = item_bytes name value ++ block_bytes headers

encode_named-entry :
    (lname : Text) (value : Bytes) (id : Option ℕ)
    → ltb 0xffff (length value) ≡ false
    → encode_named lname value id
      ≡ ok (
          if (if is_some id then true else leb (length (Utf8.encode lname)) 0xff)
          then entry lname value id
          else [])
unfolding encode_named varint_u16
encode_named-entry lname value (some id) h = ground arith
encode_named-entry lname value none h = ground arith

encode_header_item-item_bytes :
    (name value : Text) → encode_header_item name value ≡ ok (item_bytes name value)
unfolding encode_header_item
encode_header_item-item_bytes name value =
    elim (Bool-cases (ltb 0xffff (length (Utf8.encode value)))) [
      | inl long ↦ ground arith
      | inr short ↦ rw short (
          encode_named-entry (lower name) (Utf8.encode value) (static_id (lower name)) short
          ∙ ground arith)
    ]

-- No header makes the encoder raise.
pub encode_header_block-block_bytes :
    (headers : Headers) → encode_header_block headers ≡ ok (block_bytes headers)
unfolding encode_header_block
encode_header_block-block_bytes [] = refl
encode_header_block-block_bytes ((name, value) ∷ headers) =
    rw (encode_header_item-item_bytes name value, encode_header_block-block_bytes headers)

pub block_bytes-append :
    (xs ys : Headers) → block_bytes (xs ++ ys) ≡ block_bytes xs ++ block_bytes ys
block_bytes-append [] ys = refl
block_bytes-append ((name, value) ∷ xs) ys =
    rw (block_bytes-append xs ys)
      (sym (append_assoc (item_bytes name value) (block_bytes xs) (block_bytes ys)))
