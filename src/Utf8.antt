-- ===== src/Utf8.antt =====
-- `str.encode("utf-8", errors="replace")` and `bytes.decode("utf-8", errors="replace")`, which the
-- header blocks of py/akari/remote_proxy/handler.py and py/akari/udp_client.py go through.
use akari_proxy.Prelude.{
  ◌⊎◌, ℕ, ◌+◌, ◌-◌, ◌*◌, ◌/◌, ◌%◌, ◌<◌, ◌≡◌, refl, ap, ◌∙◌, [], ◌∷◌, ◌++◌, arith, ltb, ◌==◌,
  if◌then◌else◌, within, All, Text, Bytes,
}

-- The bytes of one code point; a surrogate cannot be encoded and becomes `?`.
unfoldable pub encode_char : ℕ → Bytes
encode_char c =
    if ltb c 0x80
    then c ∷ []
    else if ltb c 0x800
    then (192 + c / 64) ∷ (128 + c % 64) ∷ []
    else if within 0xd800 0xdfff c
    then b'?' ∷ []
    else if ltb c 0x10000
    then (224 + c / 4096) ∷ (128 + c / 64 % 64) ∷ (128 + c % 64) ∷ []
    else (240 + c / 262144) ∷ (128 + c / 4096 % 64) ∷ (128 + c / 64 % 64) ∷ (128 + c % 64) ∷ []

unfoldable pub encode : Text → Bytes
encode [] = []
encode (c ∷ s) = encode_char c ++ encode s

-- Between characters, or inside one: the bytes still to come, the bits read so far, and the range
-- that the next byte must lie in.
pub data Decoder : Type 0 where
  start : Decoder
  inside : ℕ → ℕ → ℕ → ℕ → Decoder

abbrev replacement : ℕ
replacement = 0xfffd

-- What one byte gives between characters: the code points put out, and the next state.
at_start : ℕ → Text × Decoder
at_start b =
    if ltb b 0x80
    then (b ∷ [], start)
    else if within 0xc2 0xdf b
    then ([], inside 1 (b - 192) 0x80 0xbf)
    else if b == 0xe0
    then ([], inside 2 0 0xa0 0xbf)
    else if b == 0xed
    then ([], inside 2 13 0x80 0x9f)
    else if within 0xe1 0xef b
    then ([], inside 2 (b - 224) 0x80 0xbf)
    else if b == 0xf0
    then ([], inside 3 0 0x90 0xbf)
    else if within 0xf1 0xf3 b
    then ([], inside 3 (b - 240) 0x80 0xbf)
    else if b == 0xf4
    then ([], inside 3 4 0x80 0x8f)
    else (replacement ∷ [], start)

-- A byte out of range ends the broken character with one replacement, and is read again.
decode_step : Decoder → ℕ → Text × Decoder
unfolding at_start
decode_step start b = at_start b
decode_step (inside n bits lo hi) b =
    if within lo hi b
    then (if n == 1
        then ((bits * 64 + (b - 128)) ∷ [], start)
        else ([], inside (n - 1) (bits * 64 + (b - 128)) 0x80 0xbf))
    else (replacement ∷ (at_start b).0, (at_start b).1)

decode_from : Decoder → Bytes → Text
unfolding decode_step
decode_from start [] = []
decode_from (inside n bits lo hi) [] = replacement ∷ []
decode_from st (b ∷ bs) = let (out, st') = decode_step st b in out ++ decode_from st' bs

unfoldable pub decode : Bytes → Text
unfolding decode_from
decode = decode_from start

-- A code point that UTF-8 can hold.
abbrev pub IsScalar : ℕ → Type 0
IsScalar c = (c < 0xd800) ⊎ ((0xdfff < c) × (c < 0x110000))

step_char :
    (st st' : Decoder) (b : ℕ) (bs : Bytes) (out : Text)
    → decode_step st b ≡ (out, st')
    → decode_from st (b ∷ bs) ≡ out ++ decode_from st' bs
unfolding decode_from
step_char start st' b bs out h = rw h
step_char (inside n bits lo hi) st' b bs out h = rw h

decode_from-encode_char :
    (c : ℕ) (bs : Bytes)
    → IsScalar c
    → decode_from start (encode_char c ++ bs) ≡ c ∷ decode_from start bs
unfolding decode_from encode_char
decode_from-encode_char c bs h = ground arith

-- Decoding gives back every text of scalar values that was encoded.
pub decode-encode : (s : Text) → All IsScalar s → decode (encode s) ≡ s
unfolding decode encode
decode-encode [] h = refl
decode-encode (c ∷ s) h =
    decode_from-encode_char c (encode s) h.0 ∙ ap (◌∷◌ c) (decode-encode s h.1)
