-- ===== src/Prelude/Str.antt =====
-- Operations of `str` that the program uses, over lists of code points.
use Prim.Native.Nat.{ℕ, ◌+◌}
use Prim.Native.Char.{code}
use Prim.Native.String.{String}
use mathlib.Core.Bool.{Bool, true, false, ◌&&◌, ◌||◌, not}
use mathlib.Core.List.{List, [], ◌∷◌, ◌++◌, map, reverse, reverse-cons, reverse-append}
use mathlib.Core.Path.{◌≡◌, refl, ap, ◌∙◌, sym, subst}
use mathlib.Core.Logic.{◌⊎◌, inl, inr}
use akari_proxy.Prelude.Tests.{◌==◌, if◌then◌else◌, within, ==_iff, &&-true, Bool-cases}
use akari_proxy.Prelude.Lists.{any}
use akari_proxy.Prelude.Keys.{Text, text_eq}

-- A literal: its code points.
abbrev pub codes : String → Text
codes String.[] = []
codes (String.◌∷◌ c s) = code c ∷ codes s

-- `str.lower` on one code point, for those below 256 (header fields are read as Latin-1).
unfoldable pub lower_char : ℕ → ℕ
lower_char c = if within 65 90 c || (within 192 222 c && not (c == 215)) then c + 32 else c

unfoldable pub lower : Text → Text
unfolding lower_char
lower = map lower_char

-- The code points that `str.isspace` accepts.
unfoldable pub is_space : ℕ → Bool
is_space c =
    within 9 13 c
    || within 28 32 c
    || c == 133
    || c == 160
    || c == 5760
    || within 8192 8202 c
    || within 8232 8233 c
    || c == 8239
    || c == 8287
    || c == 12288

unfoldable pub lstrip : Text → Text
unfolding is_space
lstrip [] = []
lstrip (c ∷ s) = if is_space c then lstrip s else c ∷ s

unfoldable pub strip : Text → Text
unfolding lstrip
strip s = reverse (lstrip (reverse (lstrip s)))

unfoldable pub starts_with : Text → Text → Bool
starts_with s [] = true
starts_with [] (p ∷ ps) = false
starts_with (c ∷ s) (p ∷ ps) = c == p && starts_with s ps

-- `p in s`
unfoldable pub contains : Text → Text → Bool
unfolding starts_with
contains [] p = starts_with [] p
contains (c ∷ s) p = starts_with (c ∷ s) p || contains s p

-- `x in {…}` for a set of texts
abbrev pub one_of : List Text → Text → Bool
one_of set x = any (text_eq x) set

-- `s.split(sep)` for a separator of one character
unfoldable pub split_onto : ℕ → Text → Text → List Text
split_onto sep cur [] = cur ∷ []
split_onto sep cur (c ∷ s) = elim (c == sep) [
  | true ↦ cur ∷ split_onto sep [] s
  | false ↦ split_onto sep (cur ++ c ∷ []) s
]

abbrev pub split : ℕ → Text → List Text
split sep = split_onto sep []

pub starts_with-split : (s p : Text) → starts_with s p ≡ true → (t : Text) × (s ≡ p ++ t)
unfolding starts_with
starts_with-split s [] h = (s, refl)
starts_with-split [] (p ∷ ps) h = cc
starts_with-split (c ∷ s) (p ∷ ps) h =
    let (same, rest) = &&-true (c == p) (starts_with s ps) h in
    let (t, e) = starts_with-split s ps rest in
    (t, ap (λ u. c ∷ u) e ∙ ap (λ d. d ∷ (ps ++ t)) ((==_iff c p).0 same))

-- A text that is empty or does not begin with white space.
abbrev pub Bare : Text → Type 0
Bare s = (s ≡ []) ⊎ ((c : ℕ) × (t : Text) × (s ≡ c ∷ t) × (is_space c ≡ false))

lstrip-Bare : (s : Text) → Bare (lstrip s)
unfolding lstrip
lstrip-Bare [] = inl refl
lstrip-Bare (c ∷ s) = elim (Bool-cases (is_space c)) [
  | inl e ↦ subst Bare (sym (ap (λ b. if b then lstrip s else c ∷ s) e)) (lstrip-Bare s)
  | inr e ↦ inr (c, s, ap (λ b. if b then lstrip s else c ∷ s) e, e)
]

-- What is not white space stays at the end.
lstrip-last :
    (c : ℕ) (s : Text) → is_space c ≡ false → (r : Text) × (lstrip (s ++ c ∷ []) ≡ r ++ c ∷ [])
unfolding lstrip
lstrip-last c [] e = ([], ap (λ b. if b then [] else c ∷ []) e)
lstrip-last c (d ∷ s) e = elim (Bool-cases (is_space d)) [
  | inl f ↦
      let (r, g) = lstrip-last c s e in
      (r, ap (λ b. if b then lstrip (s ++ c ∷ []) else d ∷ (s ++ c ∷ [])) f ∙ g)
  | inr f ↦ (d ∷ s, ap (λ b. if b then lstrip (s ++ c ∷ []) else d ∷ (s ++ c ∷ [])) f)
]

pub strip-Bare : (s : Text) → Bare (strip s)
unfolding strip
strip-Bare s = elim (lstrip-Bare s) [
  | inl e ↦ inl (ap (λ l. reverse (lstrip (reverse l))) e ∙ unfold lstrip in refl)
  | inr (c, t, e, f) ↦
      let (r, g) = lstrip-last c (reverse t) f in
      inr (
        c,
        reverse r,
        ap (λ l. reverse (lstrip (reverse l))) e
            ∙ ap (λ l. reverse (lstrip l)) (reverse-cons c t)
            ∙ ap reverse g
            ∙ reverse-append r (c ∷ []),
        f,
      )
]
