-- ===== src/Url/Percent/RoundTrip.antt =====
-- `unquote` undoes `quote`, and what `quote` writes.
use akari_proxy.Prelude.{
  ℕ, ◌+◌, ◌*◌, ◌/◌, ◌%◌, ◌<◌, ◌≡◌, refl, sym, ap, ◌∙◌, inl, inr, true, false, ◌||◌, some, [], ◌∷◌,
  ◌++◌, append-nil, append_assoc, arith, ltb, ◌==◌, Bool-cases, All, All-append, Text, Bytes,
  nat_eq, text_key,
}
use akari_proxy.Utf8
use akari_proxy.Utf8.{IsScalar, decode-encode, encode_char}
use akari_proxy.Url.Percent.{
  is_unreserved, hex_digit, quote_byte, quote_bytes, quote, hex_value, unquote_bytes, unquote_onto,
  unquote,
}

-- A character that `quote` writes.
abbrev pub IsQuoted : ℕ → Type 0
IsQuoted c = (is_unreserved c || c == b'%') ≡ true

abbrev IsByte : ℕ → Type 0
IsByte b = b < 256

quote_byte-IsQuoted : (b : ℕ) → b < 256 → All IsQuoted (quote_byte b)
quote_byte-IsQuoted b h = ground arith

encode_char-IsByte : (c : ℕ) → IsScalar c → All IsByte (Utf8.encode_char c)
unfolding encode_char
encode_char-IsByte c h = ground arith

encode-IsByte : (s : Text) → All IsScalar s → All IsByte (Utf8.encode s)
unfolding Utf8.encode
encode-IsByte [] h = tt
encode-IsByte (c ∷ s) h =
    All-append IsByte (encode_char c) (Utf8.encode s) (encode_char-IsByte c h.0)
      (encode-IsByte s h.1)

quote_bytes-IsQuoted : (bs : Bytes) → All IsByte bs → All IsQuoted (quote_bytes bs)
unfolding quote_bytes
quote_bytes-IsQuoted [] h = tt
quote_bytes-IsQuoted (b ∷ bs) h =
    All-append IsQuoted (quote_byte b) (quote_bytes bs) (quote_byte-IsQuoted b h.0)
      (quote_bytes-IsQuoted bs h.1)

pub quote-IsQuoted : (s : Text) → All IsScalar s → All IsQuoted (quote s)
unfolding quote
quote-IsQuoted s h = quote_bytes-IsQuoted (Utf8.encode s) (encode-IsByte s h)

-- A character other than `%` is a byte of its own.
unquote_bytes-plain :
    (c : ℕ) (s : Text) → (c == b'%') ≡ false → unquote_bytes (c ∷ s) ≡ c ∷ unquote_bytes s
unfolding unquote_bytes
unquote_bytes-plain c [] h = refl
unquote_bytes-plain c (a ∷ []) h = refl
unquote_bytes-plain c (a ∷ b ∷ s) h = rw (h, unquote_bytes) refl

hex_value-hex_digit : (n : ℕ) → n < 16 → hex_value (hex_digit n) ≡ some n
hex_value-hex_digit n h = ground arith

unquote_bytes-pair :
    (a b h l : ℕ) (s : Text)
    → hex_value a ≡ some h
    → hex_value b ≡ some l
    → unquote_bytes (b'%' ∷ a ∷ b ∷ s) ≡ (h * 16 + l) ∷ unquote_bytes s
unfolding unquote_bytes
unquote_bytes-pair a b h l s e f = rw (e, f, unquote_bytes) refl

unquote_bytes-quote_byte :
    (b : ℕ) (s : Text) → b < 256 → unquote_bytes (quote_byte b ++ s) ≡ b ∷ unquote_bytes s
unquote_bytes-quote_byte b s h = elim (Bool-cases (is_unreserved b)) [
  | inl plain ↦ rw plain (unquote_bytes-plain b s (ground arith))
  | inr other ↦ rw other (
      unquote_bytes-pair (hex_digit (b / 16)) (hex_digit (b % 16)) (b / 16) (b % 16) s
        (hex_value-hex_digit (b / 16) (omega arith)) (hex_value-hex_digit (b % 16) (omega arith))
      ∙ ap (λ x. x ∷ unquote_bytes s) (omega arith))
]

unquote_bytes-quote_bytes : (bs : Bytes) → All IsByte bs → unquote_bytes (quote_bytes bs) ≡ bs
unfolding quote_bytes
unquote_bytes-quote_bytes [] h = unfold unquote_bytes in refl
unquote_bytes-quote_bytes (b ∷ bs) h =
    unquote_bytes-quote_byte b (quote_bytes bs) h.0 ∙ ap (◌∷◌ b) (unquote_bytes-quote_bytes bs h.1)

unquote_onto-ascii :
    (run s : Text) → All IsQuoted s → unquote_onto run s ≡ Utf8.decode (unquote_bytes (run ++ s))
unfolding unquote_onto
unquote_onto-ascii run [] h = ap (λ t. Utf8.decode (unquote_bytes t)) (sym (append-nil run))
unquote_onto-ascii run (c ∷ s) h =
    let low : ltb c 128 ≡ true = let q = h.0 in ground arith in
    rw (low, unquote_onto)
      (unquote_onto-ascii (run ++ c ∷ []) s h.1
        ∙ ap (λ t. Utf8.decode (unquote_bytes t)) (append_assoc run (c ∷ []) s))

pub unquote-quote : (s : Text) → All IsScalar s → unquote (quote s) ≡ s
unfolding unquote quote
unquote-quote s h =
    unquote_onto-ascii [] (quote_bytes (Utf8.encode s)) (quote-IsQuoted s h)
    ∙ ap Utf8.decode (unquote_bytes-quote_bytes (Utf8.encode s) (encode-IsByte s h))
    ∙ decode-encode s h
