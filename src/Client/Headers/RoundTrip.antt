-- ===== src/Client/Headers/RoundTrip.antt =====
-- The client reads back the header block that the server wrote.
pub mod Entries
use akari_proxy.Prelude.{
  ℕ, zero, suc, ◌+◌, ◌≤◌, ◌≡◌, refl, sym, ap, ◌∙◌, inl, inr, true, false, [], ◌∷◌, ◌++◌, arith,
  if◌then◌else◌, length, length-append, Bool-cases, All, Text, text_key, nat_eq,
}
use akari_proxy.Prelude.Dict.{put}
use akari_proxy.Prelude.Str.{lower}
use akari_proxy.Exceptions.{ok, ◌>>=◌}
use akari_proxy.Utf8
use akari_proxy.Utf8.{IsScalar}
use akari_proxy.Handler.Headers.{Headers, static_id, encode_header_block}
use akari_proxy.Handler.Headers.Block.{
  entry, is_sent, item_bytes, block_bytes, encode_header_block-block_bytes,
}
use akari_proxy.Client.Headers.{decode_loop, decode_header_block}
use akari_proxy.Client.Headers.RoundTrip.Entries.{decode_loop-entry, decode_loop-nil, length-entry}

-- The names and values are texts that UTF-8 can hold.
abbrev pub IsText : Text × Text → Type 0
IsText (name, value) = All IsScalar (lower name) × All IsScalar value

-- The dict that the sent headers make, in their order and under lower-case names.
abbrev pub collect : Headers → Headers → Headers
collect out [] = out
collect out ((name, value) ∷ headers) =
    collect (if is_sent (lower name) value then put out (lower name) value else out) headers

module _ (name value : Text) where
  item_bytes_sent :
      is_sent (lower name) value ≡ true
      → item_bytes name value ≡ entry (lower name) (Utf8.encode value) (static_id (lower name))
  item_bytes_sent h = rw h

  collect_sent :
      (headers out : Headers)
      → is_sent (lower name) value ≡ true
      → collect out ((name, value) ∷ headers) ≡ collect (put out (lower name) value) headers
  collect_sent headers out h = rw h

  item_bytes_skipped : is_sent (lower name) value ≡ false → item_bytes name value ≡ []
  item_bytes_skipped h = rw h

decode_loop-item :
    (fuel : ℕ) (name value : Text) (headers out : Headers)
    → IsText (name, value)
    → is_sent (lower name) value ≡ true
    → length (item_bytes name value ++ block_bytes headers) ≤ fuel
    → (rounds : ℕ) × (length (block_bytes headers) ≤ rounds)
      × (decode_loop fuel (item_bytes name value ++ block_bytes headers) out
          ≡ decode_loop rounds (block_bytes headers) (put out (lower name) value))
decode_loop-item zero name value headers out h sent k = absurd (
    omega (
      arith,
      ap length (item_bytes_sent name value sent),
      length-append (item_bytes name value) (block_bytes headers),
      length-entry (lower name) (Utf8.encode value) (static_id (lower name)),
    ))
decode_loop-item (suc fuel) name value headers out h sent k = (
  fuel,
  omega (
    arith,
    ap length (item_bytes_sent name value sent),
    length-append (item_bytes name value) (block_bytes headers),
    length-entry (lower name) (Utf8.encode value) (static_id (lower name)),
  ),
  rw (item_bytes_sent name value sent) (
      decode_loop-entry fuel (lower name) value (static_id (lower name)) (block_bytes headers) out
        refl h.0 h.1),
)

decode_loop-block_bytes :
    (fuel : ℕ) (headers out : Headers)
    → All IsText headers
    → length (block_bytes headers) ≤ fuel
    → decode_loop fuel (block_bytes headers) out ≡ ok (collect out headers)
decode_loop-block_bytes fuel [] out h k = decode_loop-nil fuel out
decode_loop-block_bytes fuel ((name, value) ∷ headers) out h k =
    elim (Bool-cases (is_sent (lower name) value)) [
      | inl sent ↦
          let (rounds, enough, step) = decode_loop-item fuel name value headers out h.0 sent k in
          step
          ∙ decode_loop-block_bytes rounds headers (put out (lower name) value) h.1 enough
          ∙ ap ok (sym (collect_sent name value headers out sent))
      | inr skipped ↦ rw skipped (
          decode_loop-block_bytes fuel headers out h.1 (
            omega (
              arith,
              ap length (item_bytes_skipped name value skipped),
              length-append (item_bytes name value) (block_bytes headers),
            )))
    ]

pub decode_header_block-block_bytes :
    (headers : Headers)
    → All IsText headers
    → decode_header_block (block_bytes headers) ≡ ok (collect [] headers)
unfolding decode_header_block
decode_header_block-block_bytes headers h =
    decode_loop-block_bytes (length (block_bytes headers)) headers [] h (omega arith)

-- The client reads, from the block that the server wrote, the headers that are sent: in their order,
-- under lower-case names, with their values. A header is left out only if its value passes 65535
-- bytes, or if it has no static id and its name passes 255 bytes.
pub decode_header_block-encode_header_block :
    (headers : Headers)
    → All IsText headers
    → (encode_header_block headers >>= decode_header_block) ≡ ok (collect [] headers)
decode_header_block-encode_header_block headers h =
    rw (encode_header_block-block_bytes headers) (decode_header_block-block_bytes headers h)
