-- ===== src/Client/Headers/RoundTrip/Entries.antt =====
-- The client reads back one entry of a header block.
use akari_proxy.Prelude.{
  ℕ, zero, suc, ◌+◌, ◌*◌, ◌/◌, ◌%◌, ◌<◌, ◌≡◌, refl, ◌∙◌, Option, none, some, [], ◌∷◌, ◌++◌,
  append_assoc, arith, length, length-append, take-append_exact, drop-append_exact, All, Text,
  Bytes, text_key, nat_eq,
}
use akari_proxy.Prelude.Dict.{get, put, get-All}
use akari_proxy.Exceptions.{ok}
use akari_proxy.Utf8
use akari_proxy.Utf8.{IsScalar}
use akari_proxy.Handler.Headers.{Headers, static_header_ids, static_id}
use akari_proxy.Handler.Headers.Block.{u16_bytes, entry}
use akari_proxy.Client.Headers.{
  read_varint_u16, read_value, read_named, static_name, read_entry, decode_loop,
}

-- The two static tables agree, and no static id is the mark of a literal name.
static_tables :
    (name : Text) (id : ℕ) → static_id name ≡ some id → (static_name id ≡ name) × (0 < id)
unfolding static_id static_name get
static_tables name id e =
    get-All (λ x. (static_name x.1 ≡ x.0) × (0 < x.1)) static_header_ids name agree e
  where
    row : {n : Text} {i : ℕ} → static_name i ≡ n → 0 < i → (static_name i ≡ n) × (0 < i)
    row p q = (p, q)

    agree : All (λ x. (static_name x.1 ≡ x.0) × (0 < x.1)) static_header_ids
    agree = (
      row refl (omega arith),
      (
        row refl (omega arith),
        (
          row refl (omega arith),
          (
            row refl (omega arith),
            (
              row refl (omega arith),
              (
                row refl (omega arith),
                (
                  row refl (omega arith),
                  (
                    row refl (omega arith),
                    (
                      row refl (omega arith),
                      (row refl (omega arith), (row refl (omega arith), tt)),
                    ),
                  ),
                ),
              ),
            ),
          ),
        ),
      ),
    )

u16_value : (n : ℕ) → n / 256 * 256 + n % 256 ≡ n
u16_value n = omega arith

read_value_lem :
    (name : Text) (value rest : Bytes)
    → read_value name (u16_bytes (length value) ++ (value ++ rest))
      ≡ ok (some ((name, Utf8.decode value), rest))
unfolding read_value read_varint_u16
read_value_lem name value rest = ground (
  arith,
  u16_value (length value),
  length-append value rest,
  take-append_exact value rest,
  drop-append_exact value rest,
)

read_named_lem :
    (name value rest : Bytes)
    → read_named (length name ∷ (name ++ (u16_bytes (length value) ++ (value ++ rest))))
      ≡ ok (some ((Utf8.decode name, Utf8.decode value), rest))
unfolding read_named
read_named_lem name value rest =
    let more : Bytes = u16_bytes (length value) ++ (value ++ rest) in
    ground (
      arith,
      length-append name more,
      take-append_exact name more,
      drop-append_exact name more,
      read_value_lem (Utf8.decode name) value rest,
    )

decode_loop_step :
    (fuel hid : ℕ) (buf rest : Bytes) (name value : Text) (headers : Headers)
    → read_entry hid buf ≡ ok (some ((name, value), rest))
    → decode_loop (suc fuel) (hid ∷ buf) headers ≡ decode_loop fuel rest (put headers name value)
unfolding decode_loop
decode_loop_step fuel hid buf rest name value headers h = rw h

-- The loop reads one entry and goes on behind it.
pub decode_loop-entry :
    (fuel : ℕ) (name value : Text) (id : Option ℕ) (rest : Bytes) (headers : Headers)
    → static_id name ≡ id
    → All IsScalar name
    → All IsScalar value
    → decode_loop (suc fuel) (entry name (Utf8.encode value) id ++ rest) headers
      ≡ decode_loop fuel rest (put headers name value)
unfolding read_entry
decode_loop-entry fuel name value none rest headers e n v =
    decode_loop_step fuel 0 _ rest name value headers (
      rw
        (append_assoc (Utf8.encode name)
          (u16_bytes (length (Utf8.encode value)) ++ Utf8.encode value) rest)
        (read_named_lem (Utf8.encode name) (Utf8.encode value) rest
          ∙ rw (Utf8.decode-encode name n, Utf8.decode-encode value v)))
decode_loop-entry fuel name value (some id) rest headers e n v =
    let (named, positive) = static_tables name id e in
    decode_loop_step fuel id _ rest name value headers (
      ground (
        arith,
        named,
        positive,
        read_value_lem (static_name id) (Utf8.encode value) rest,
        Utf8.decode-encode value v,
      ))

pub decode_loop-nil : (fuel : ℕ) (headers : Headers) → decode_loop fuel [] headers ≡ ok headers
unfolding decode_loop
decode_loop-nil zero headers = refl
decode_loop-nil (suc fuel) headers = refl

pub length-entry : (name : Text) (value : Bytes) (id : Option ℕ) → 0 < length (entry name value id)
length-entry name value none = omega arith
length-entry name value (some id) = omega arith
