-- ===== src/Prelude/Dict.antt =====
-- Python's `dict`: keys in the order of their first insertion, each once.
use mathlib.Core.Path.{◌≡◌, refl, sym, subst}
use mathlib.Core.Bool.{Bool, true}
use mathlib.Core.List.{List, [], ◌∷◌}
use mathlib.Core.Option.{Option, none, some}
use native.Mathlib.Omega.{arith}
use akari_proxy.Prelude.Tests.{if◌then◌else◌, is_some, Bool-cases}
use akari_proxy.Prelude.Lists.{All, keep, keep_yes, keep_no}
use mathlib.Core.Logic.{inl, inr}
use akari_proxy.Prelude.Keys.{Eq}

abbrev pub Dict {ℓ κ} : Type ℓ → Type κ → Type (ℓ ⊔ κ)
Dict K V = List (K × V)

module _ {ℓ κ} {K : Type ℓ} {V : Type κ} ⦃e : Eq K⦄ where
  -- d.get(k)
  unfoldable pub get : Dict K V → K → Option V
  get [] k = none
  get ((j, v) ∷ d) k = if e.beq j k then some v else get d k

  -- k in d
  abbrev pub has : Dict K V → K → Bool
  has d k = is_some (get d k)

  -- d[k] = v
  unfoldable pub put : Dict K V → K → V → Dict K V
  put [] k v = (k, v) ∷ []
  put ((j, w) ∷ d) k v = if e.beq j k then (j, v) ∷ d else (j, w) ∷ put d k v

  -- d.pop(k, None)
  unfoldable pub pop : Dict K V → K → Dict K V
  pop [] k = []
  pop ((j, w) ∷ d) k = let rest = pop d k in if e.beq j k then rest else (j, w) ∷ rest

  pub get-put :
      (d : Dict K V) (k j : K) (v : V) → get (put d k v) j ≡ (if e.beq k j then some v else get d j)
  unfolding get put
  get-put [] k j v = refl
  get-put ((i, w) ∷ d) k j v =
      ground (arith, e.beq_iff i k, e.beq_iff i j, e.beq_iff k j, get-put d k j v)

  pub get-pop : (d : Dict K V) (k j : K) → get (pop d k) j ≡ (if e.beq k j then none else get d j)
  unfolding get pop
  get-pop [] k j = ground arith
  get-pop ((i, w) ∷ d) k j =
      ground (arith, e.beq_iff i k, e.beq_iff i j, e.beq_iff k j, get-pop d k j)

  -- What holds of every entry holds of a value that is found.
  pub get-All {μ} :
      (P : K × V → Type μ) (d : Dict K V) (k : K) {v : V} → All P d → get d k ≡ some v → P (k, v)
  unfolding get
  get-All P [] k h e' = cc
  get-All P ((j, w) ∷ d) k h e' = elim (Bool-cases (e.beq j k)) [
    | inl same ↦ subst P (cc (rw same at e', (e.beq_iff j k).0 same)) h.0
    | inr other ↦ get-All P d k h.1 (rw other at e')
  ]

  -- A new entry survives a selection that it passes.
  pub get-keep-put :
      (p : K × V → Bool) (d : Dict K V) (k : K) (v : V)
      → p (k, v) ≡ true
      → get (keep p (put d k v)) k ≡ some v
  unfolding get put
  get-keep-put p [] k v h = ground (arith, e.beq_iff k k)
  get-keep-put p ((j, w) ∷ d) k v h = elim (Bool-cases (e.beq j k)) [
    | inl same ↦
        let passed : p (j, v) ≡ true =
          subst (λ i. p (i, v) ≡ true) (sym ((e.beq_iff j k).0 same)) h in
        ground (arith, passed)
    | inr other ↦ ground (arith, get-keep-put p d k v h)
  ]

  -- What is found is found in a selection that its entry passes.
  pub get-keep :
      (p : K × V → Bool) (d : Dict K V) (k : K) {v : V}
      → get d k ≡ some v
      → p (k, v) ≡ true
      → get (keep p d) k ≡ some v
  unfolding get
  get-keep p [] k h e' = cc
  get-keep p ((j, w) ∷ d) k {v} h e' = elim (Bool-cases (e.beq j k)) [
    | inl same ↦
        let passed : p (j, w) ≡ true =
          subst (λ x. p x ≡ true) (cc (rw same at h, (e.beq_iff j k).0 same)) e' in
        ground (arith, passed)
    | inr other ↦ ground (arith, get-keep p d k (rw other at h) e')
  ]

  pub get-keep-none :
      (p : K × V → Bool) (d : Dict K V) (k : K) → get d k ≡ none → get (keep p d) k ≡ none
  unfolding get
  get-keep-none p [] k h = refl
  get-keep-none p ((j, w) ∷ d) k h = elim (Bool-cases (e.beq j k)) [
    | inl same ↦ cc (rw same at h)
    | inr other ↦ ground (arith, get-keep-none p d k (rw other at h), other)
  ]

  -- What holds of the keys of a dict holds of them after `put` and `pop`.
  pub All-put {μ} :
      (Q : K → Type μ) (d : Dict K V) (k : K) (v : V)
      → All (λ x. Q x.0) d
      → Q k
      → All (λ x. Q x.0) (put d k v)
  unfolding put
  All-put Q [] k v h q = (q, tt)
  All-put Q ((j, w) ∷ d) k v h q = elim (Bool-cases (e.beq j k)) [
    | inl same ↦ rw (same, put) (h.0, h.1)
    | inr other ↦ rw (other, put) (h.0, All-put Q d k v h.1 q)
  ]

  pub All-pop {μ} :
      (Q : K → Type μ) (d : Dict K V) (k : K) → All (λ x. Q x.0) d → All (λ x. Q x.0) (pop d k)
  unfolding pop
  All-pop Q [] k h = tt
  All-pop Q ((j, w) ∷ d) k h = elim (Bool-cases (e.beq j k)) [
    | inl same ↦ rw (same, pop) (All-pop Q d k h.1)
    | inr other ↦ rw (other, pop) (h.0, All-pop Q d k h.1)
  ]

module _ {ℓ} {A : Type ℓ} where
  -- What a selection keeps passes its test.
  pub All-keep_self : (p : A → Bool) (xs : List A) → All (λ x. p x ≡ true) (keep p xs)
  All-keep_self p [] = tt
  All-keep_self p (x ∷ xs) = elim (Bool-cases (p x)) [
    | inl e ↦ subst (All (λ y. p y ≡ true)) (sym (keep_yes p x xs e)) (e, All-keep_self p xs)
    | inr e ↦ subst (All (λ y. p y ≡ true)) (sym (keep_no p x xs e)) (All-keep_self p xs)
  ]
