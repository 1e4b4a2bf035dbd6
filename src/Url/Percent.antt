-- ===== src/Url/Percent.antt =====
-- `urllib.parse.quote` with `safe=""`, `unquote` and `quote_plus`.
pub mod RoundTrip
use akari_proxy.Prelude.{
  ℕ, ◌+◌, ◌-◌, ◌*◌, ◌/◌, ◌%◌, Bool, true, false, ◌||◌, Option, none, some, [], ◌∷◌, ◌++◌, ltb, ◌==◌,
  if◌then◌else◌, within, Text, Bytes, nat_eq, text_key,
}
use akari_proxy.Utf8

-- A letter, a digit, or one of `_.-~`.
abbrev pub is_unreserved : ℕ → Bool
is_unreserved b =
    within 65 90 b || within 97 122 b || within 48 57 b || b == 95 || b == 46 || b == 45 || b == 126

-- One of `0123456789ABCDEF`.
abbrev pub hex_digit : ℕ → ℕ
hex_digit n = if ltb n 10 then 48 + n else 55 + n

abbrev pub quote_byte : ℕ → Text
quote_byte b =
    if is_unreserved b then b ∷ [] else b'%' ∷ hex_digit (b / 16) ∷ hex_digit (b % 16) ∷ []

unfoldable pub quote_bytes : Bytes → Text
quote_bytes [] = []
quote_bytes (b ∷ bs) = quote_byte b ++ quote_bytes bs

-- `quote(s, safe="")`, for a text that can be encoded
unfoldable pub quote : Text → Text
unfolding quote_bytes
quote s = quote_bytes (Utf8.encode s)

-- `quote_plus(s)`: a blank becomes `+`.
plus_byte : ℕ → Text
plus_byte b = if b == 32 then b'+' ∷ [] else quote_byte b

plus_bytes : Bytes → Text
unfolding plus_byte
plus_bytes [] = []
plus_bytes (b ∷ bs) = plus_byte b ++ plus_bytes bs

unfoldable pub quote_plus : Text → Text
unfolding plus_bytes
quote_plus s = plus_bytes (Utf8.encode s)

abbrev pub hex_value : ℕ → Option ℕ
hex_value c =
    if within 48 57 c
    then some (c - 48)
    else if within 65 70 c
    then some (c - 55)
    else if within 97 102 c
    then some (c - 87)
    else none

-- The byte that two digits stand for.
abbrev pub hex_pair : Option ℕ → Option ℕ → Option ℕ
hex_pair (some h) (some l) = some (h * 16 + l)
hex_pair _ _ = none

-- `unquote_to_bytes` on ASCII: a `%` that no two digits follow stays.
unfoldable pub unquote_bytes : Text → Bytes
unquote_bytes [] = []
unquote_bytes (c ∷ []) = c ∷ []
unquote_bytes (c ∷ a ∷ []) = c ∷ a ∷ []
unquote_bytes (c ∷ a ∷ b ∷ s) =
    elim (if c == b'%' then hex_pair (hex_value a) (hex_value b) else none) [
      | some byte ↦ byte ∷ unquote_bytes s
      | none ↦ c ∷ unquote_bytes (a ∷ b ∷ s)
    ]

-- The runs of ASCII are unquoted and decoded; other characters stay.
unquote_onto : Text → Text → Text
unfolding unquote_bytes
unquote_onto run [] = Utf8.decode (unquote_bytes run)
unquote_onto run (c ∷ s) = elim (ltb c 128) [
  | true ↦ unquote_onto (run ++ c ∷ []) s
  | false ↦ Utf8.decode (unquote_bytes run) ++ c ∷ unquote_onto [] s
]

-- `unquote(s)`
unfoldable pub unquote : Text → Text
unfolding unquote_onto
unquote = unquote_onto []
