-- ===== src/Prelude/Decimal.antt =====
-- `str(n)` for a natural number.
use Prim.Native.Nat.{ℕ, zero, suc, ◌+◌, ◌-◌, ◌*◌, ◌/◌, ◌%◌}
use mathlib.Core.List.{[], ◌∷◌}
use mathlib.Core.Bool.{true, false}
use mathlib.Core.Bool.{Bool, ◌&&◌}
use mathlib.Core.Option
use mathlib.Core.Option.{Option, none, some}
use mathlib.Core.Path.{◌≡◌}
use mathlib.Core.Logic.{inl, inr}
use native.Mathlib.Omega.{arith}
use akari_proxy.Prelude.Lists.{All}
use akari_proxy.Prelude.Tests.{ltb, within, ◌==◌, if◌then◌else◌, Bool-cases}
use akari_proxy.Prelude.Str.{strip}
use akari_proxy.Prelude.Keys.{Text}

-- The digits before `tail`; a number has fewer of them than its value plus one.
decimal_onto : ℕ → ℕ → Text → Text
decimal_onto zero n tail = tail
decimal_onto (suc fuel) n tail = elim (ltb n 10) [
  | true ↦ (48 + n) ∷ tail
  | false ↦ decimal_onto fuel (n / 10) ((48 + n % 10) ∷ tail)
]

unfoldable pub decimal : ℕ → Text
unfolding decimal_onto
decimal n = decimal_onto (n + 1) n []

-- The integers that `int(text)` reads; `negsuc n` is -(n + 1).
pub data ℤ : Type 0 where
  pos : ℕ → ℤ
  negsuc : ℕ → ℤ

abbrev negate : ℕ → ℤ
negate zero = pos 0
negate (suc n) = negsuc n

-- Digits with single underscores between them; the flag says that a digit stands in front.
digits : Bool → ℕ → Text → Option ℕ
digits true n [] = some n
digits false n [] = none
digits after n (c ∷ s) =
    let next = digits true (n * 10 + (c - 48)) s in
    let gap = digits false n s in
    if within 48 57 c then next else if c == b'_' && after then gap else none

signed : Text → Option ℤ
unfolding digits
signed [] = none
signed (c ∷ s) =
    if c == b'-'
    then Option.map negate (digits false 0 s)
    else if c == b'+'
    then Option.map pos (digits false 0 s)
    else Option.map pos (digits false 0 (c ∷ s))

-- `int(text)` for ASCII digits; `none` is a ValueError.
unfoldable pub parse_int : Text → Option ℤ
unfolding signed strip
parse_int s = signed (strip s)

abbrev pub IsDigit : ℕ → Type 0
IsDigit c = within 48 57 c ≡ true

decimal_onto-digits : (fuel n : ℕ) (s : Text) → All IsDigit s → All IsDigit (decimal_onto fuel n s)
unfolding decimal_onto
decimal_onto-digits zero n s h = h
decimal_onto-digits (suc fuel) n s h = elim (Bool-cases (ltb n 10)) [
  | inl low ↦ rw (low, decimal_onto) (ground arith, h)
  | inr high ↦
      rw (high, decimal_onto)
        (decimal_onto-digits fuel (n / 10) ((48 + n % 10) ∷ s) (ground arith, h))
]

pub decimal-digits : (n : ℕ) → All IsDigit (decimal n)
unfolding decimal
decimal-digits n = decimal_onto-digits (n + 1) n [] tt
