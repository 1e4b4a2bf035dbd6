-- ===== src/Config/Valid.antt =====
-- What the accepted configurations satisfy.
use akari_proxy.Prelude.{
  ℕ, zero, suc, ◌≤◌, ◌≡◌, refl, sym, subst, inl, inr, false, false≢true, ◌&&◌, Option, none, some,
  ◌∷◌, ◌++◌, arith, leb, Bool-cases, some_inj, none≢some, is_empty, Text, nat_eq, text_key,
}
use akari_proxy.Prelude.Dict.{get}
use akari_proxy.Prelude.Decimal.{ℤ, pos, negsuc}
use akari_proxy.Prelude.Str.{codes, strip, is_space, strip-Bare}
use akari_proxy.Exceptions.{Result, Ensures, after_any}
use akari_proxy.Config.{
  Floats, Toml, string, Table, to_int, to_float, require_str, require_port, require_int,
  optional_float, or_required, or_config_error, stripped, in_range, above_zero, some_above_nought,
}

abbrev pub IsPort : ℤ → Type 0
IsPort n = (p : ℕ) × (n ≡ pos p) × (1 ≤ p) × (p ≤ 65535)

abbrev pub IsPositive : ℤ → Type 0
IsPositive n = (p : ℕ) × (n ≡ pos p) × (1 ≤ p)

-- A text that does not begin with white space.
abbrev pub IsWord : Text → Type 0
IsWord s = (c : ℕ) × (t : Text) × (s ≡ c ∷ t) × (is_space c ≡ false)

pub strip-IsWord : (s : Text) → is_empty (strip s) ≡ false → IsWord (strip s)
strip-IsWord s h = elim (strip-Bare s) [
  | inl e ↦ absurd (false≢true (sym (rw e at h)))
  | inr word ↦ word
]

pub looked_up :
    {A B : Type 0} (P : B → Type 0) (o : Option A) (missing : Result B) (next : A → Result B)
    → Ensures P missing
    → ((a : A) → o ≡ some a → Ensures P (next a))
    → Ensures P (elim o [ none ↦ missing | some a ↦ next a ])
looked_up P none missing next h k = h
looked_up P (some a) missing next h k = k a refl

required :
    {A : Type 0} (P : A → Type 0) (key : Text) (default : Option A)
    → ((d : A) → default ≡ some d → P d)
    → Ensures P (or_required key default)
required P key none h = tt
required P key (some d) h = h d refl

module _ (floats : Floats) where
  stripped-IsWord : (key : Text) (v : Toml floats.Float) → Ensures IsWord (stripped floats key v)
  stripped-IsWord key (string s) = elim (Bool-cases (is_empty (strip s))) [
    | inl e ↦ rw e tt
    | inr e ↦ rw e (strip-IsWord s e)
  ]
  stripped-IsWord key v = tt

  pub require_str-IsWord :
      (table : Table floats) (key : Text) (default : Option Text)
      → ((d : Text) → default ≡ some d → IsWord d)
      → Ensures IsWord (require_str floats table key default)
  unfolding require_str
  require_str-IsWord table key default h =
      looked_up IsWord (get table key) _ _ (required IsWord key default h)
        (λ v e. stripped-IsWord key v)

  in_range-IsPort : (key : Text) (n : ℤ) → Ensures IsPort (in_range floats key n)
  in_range-IsPort key (pos n) = elim (Bool-cases (leb 1 n && leb n 65535)) [
    | inl e ↦ rw e (n, refl, ground arith, ground arith)
    | inr e ↦ rw e tt
  ]
  in_range-IsPort key (negsuc n) = tt

  pub require_port-IsPort :
      (table : Table floats) (key : Text) (default : Option ℤ)
      → ((d : ℤ) → default ≡ some d → IsPort d)
      → Ensures IsPort (require_port floats table key default)
  unfolding require_port
  require_port-IsPort table key default h =
      looked_up IsPort (get table key) _ _ (required IsPort key default h) (λ v e.
        after_any IsPort (or_config_error (key ++ codes " must be an integer") (to_int floats v))
          (in_range floats key) (in_range-IsPort key))

  above_zero-IsPositive : (key : Text) (n : ℤ) → Ensures IsPositive (above_zero floats key n)
  above_zero-IsPositive key (pos zero) = tt
  above_zero-IsPositive key (pos (suc n)) = (suc n, refl, omega arith)
  above_zero-IsPositive key (negsuc n) = tt

  pub require_int-IsPositive :
      (table : Table floats) (key : Text) (default : Option ℤ)
      → ((d : ℤ) → default ≡ some d → IsPositive d)
      → Ensures IsPositive (require_int floats table key default)
  unfolding require_int
  require_int-IsPositive table key default h =
      looked_up IsPositive (get table key) _ _ (required IsPositive key default h) (λ v e.
        after_any IsPositive
          (or_config_error (key ++ codes " must be an integer") (to_int floats v))
          (above_zero floats key) (above_zero-IsPositive key))

  -- A timeout that is set is above zero.
  abbrev pub IsTimeout : Option floats.Float → Type 0
  IsTimeout timeout = (t : floats.Float) → timeout ≡ some t → floats.at_most_zero t ≡ false

  some_above_nought-IsTimeout :
      (key : Text) (value : floats.Float) → Ensures IsTimeout (some_above_nought floats key value)
  some_above_nought-IsTimeout key value = elim (Bool-cases (floats.at_most_zero value)) [
    | inl e ↦ rw e tt
    | inr e ↦ rw e (λ t same. subst (λ x. floats.at_most_zero x ≡ false) (some_inj same) e)
  ]

  pub optional_float-IsTimeout :
      (table : Table floats) (key : Text) → Ensures IsTimeout (optional_float floats table key)
  unfolding optional_float
  optional_float-IsTimeout table key =
      looked_up IsTimeout (get table key) _ _ (λ t h. absurd (none≢some h))
        (λ v e.
          after_any IsTimeout
            (or_config_error (key ++ codes " must be a number") (to_float floats v))
            (some_above_nought floats key) (some_above_nought-IsTimeout key))
