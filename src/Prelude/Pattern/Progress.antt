-- ===== src/Prelude/Pattern/Progress.antt =====
-- A match takes the characters that its pattern asks for at least, so that a substitution ends.
use akari_proxy.Prelude.{
  ℕ, zero, suc, ◌+◌, ◌≤◌, ◌≡◌, refl, ap, ◌⊎◌, inl, inr, Bool, true, false, Option, none, some, List,
  [], ◌∷◌, ◌++◌, arith, if◌then◌else◌, Bool-cases, Option-cases, some_inj, none≢some, length, Text,
  nat_eq, text_key,
}
use akari_proxy.Prelude.Dict.{Dict, put}
use akari_proxy.Prelude.Str.{is_space}
use akari_proxy.Prelude.Pattern.{
  Item, one, run, perhaps, word, words, boundary, start_or_space, edge, perhaps_group, Place, group,
  after_word, or_try, Next, on_word, on_words, on_run, on_one, match_items, replaced,
  substitute_from,
}

-- What follows takes `n` characters at least.
abbrev Eats : ℕ → Next → Type 0
Eats n next =
    (before : Option ℕ) (s : Text) (edges : Dict ℕ Text) (place : Place)
    → next before s edges ≡ some place
    → length place.1 + n ≤ length s

or_try-cases :
    (a b : Option Place) (place : Place)
    → or_try a b ≡ some place
    → (a ≡ some place) ⊎ (b ≡ some place)
or_try-cases none b place h = inr h
or_try-cases (some p) b place h = inl h

if_none-some :
    {A : Type 0} (b : Bool) (x : Option A) (a : A) → (if b then x else none) ≡ some a → x ≡ some a
if_none-some true x a h = h
if_none-some false x a h = absurd (none≢some h)

after_word-length :
    (before : Option ℕ) (w s : Text) (last : Option ℕ) (rest : Text)
    → after_word before w s ≡ some (last, rest)
    → length rest + length w ≡ length s
after_word-length before [] s last rest h = omega (arith, ap (λ x. length x.1) (some_inj h))
after_word-length before (w ∷ ws) [] last rest h = absurd (none≢some h)
after_word-length before (w ∷ ws) (c ∷ s) last rest h =
    omega (arith, after_word-length (some c) ws s last rest (if_none-some _ _ (last, rest) h))

module _ (n : ℕ) (next : Next) (eats : Eats n next) where
  on_one-Eats :
      (p : ℕ → Bool) (s : Text) (edges : Dict ℕ Text) (place : Place)
      → on_one next p s edges ≡ some place
      → length place.1 + suc n ≤ length s
  on_one-Eats p [] edges place h = absurd (none≢some h)
  on_one-Eats p (c ∷ s) edges place h =
      omega (arith, eats (some c) s edges place (if_none-some (p c) _ place h))

  on_run-Eats :
      (p : ℕ → Bool) (least : ℕ) (before : Option ℕ) (s : Text) (edges : Dict ℕ Text)
      (place : Place)
      → on_run next p least before s edges ≡ some place
      → length place.1 + (least + n) ≤ length s
  on_run-Eats p zero before [] edges place h = omega (arith, eats before [] edges place h)
  on_run-Eats p (suc least) before [] edges place h = absurd (none≢some h)
  on_run-Eats p zero before (c ∷ s) edges place h = elim (Bool-cases (p c)) [
    | inr e ↦ omega (arith, eats before (c ∷ s) edges place (rw e at h))
    | inl e ↦ elim (or_try-cases _ _ place (rw e at h)) [
      | inl longer ↦
          let bound = on_run-Eats p zero (some c) s edges place longer in omega (arith, bound)
      | inr here ↦ omega (arith, eats before (c ∷ s) edges place here)
    ]
  ]
  on_run-Eats p (suc least) before (c ∷ s) edges place h =
      omega (arith, on_run-Eats p least (some c) s edges place (if_none-some (p c) _ place h))

  on_word-Eats :
      (before : Option ℕ) (w s : Text) (edges : Dict ℕ Text) (place : Place)
      → on_word next edges (after_word before w s) ≡ some place
      → length place.1 + (length w + n) ≤ length s
  on_word-Eats before w s edges place h = elim (Option-cases (after_word before w s)) [
    | inl e ↦ absurd (none≢some (rw e at h))
    | inr ((last, rest), e) ↦
        omega
          (arith, eats last rest edges place (rw e at h), after_word-length before w s last rest e)
  ]

  on_words-Eats :
      (ws : List Text) (before : Option ℕ) (s : Text) (edges : Dict ℕ Text) (place : Place)
      → on_words next ws before s edges ≡ some place
      → length place.1 + n ≤ length s
  on_words-Eats [] before s edges place h = absurd (none≢some h)
  on_words-Eats (w ∷ ws) before s edges place h = elim (or_try-cases _ _ place h) [
    | inl this ↦ let bound = on_word-Eats before w s edges place this in omega (arith, bound)
    | inr later ↦ on_words-Eats ws before s edges place later
  ]

replaced-same :
    (replace : Dict ℕ Text → Text) (c : ℕ) (s : Text) (onward onward' : Option ℕ → Text → Text)
    (found : Option Place)
    → onward (some c) s ≡ onward' (some c) s
    → ((last : Option ℕ) (rest : Text) (edges : Dict ℕ Text)
        → found ≡ some (last, rest, edges)
        → onward last rest ≡ onward' last rest)
    → replaced onward replace c s found ≡ replaced onward' replace c s found
replaced-same replace c s onward onward' none h k = ap (λ t. c ∷ t) h
replaced-same replace c s onward onward' (some (last, rest, edges)) h k =
    ap (λ t. replace edges ++ t) (k last rest edges refl)

-- The characters that a pattern asks for at least.
abbrev pub least_taken : List Item → ℕ
least_taken [] = 0
least_taken (one p ∷ items) = suc (least_taken items)
least_taken (run least p ∷ items) = least + least_taken items
least_taken (word w ∷ items) = length w + least_taken items
least_taken (item ∷ items) = least_taken items

module _ (is_letter : ℕ → Bool) where
  match_items-Eats : (items : List Item) → Eats (least_taken items) (match_items is_letter items)
  unfolding match_items
  match_items-Eats [] before s edges place h = omega (arith, ap (λ x. length x.1) (some_inj h))
  match_items-Eats (one p ∷ items) before s edges place h =
      on_one-Eats _ _ (match_items-Eats items) p s edges place h
  match_items-Eats (run least p ∷ items) before s edges place h =
      on_run-Eats _ _ (match_items-Eats items) p least before s edges place h
  match_items-Eats (perhaps p ∷ items) before s edges place h = elim (or_try-cases _ _ place h) [
    | inl there ↦
        let bound = on_one-Eats _ _ (match_items-Eats items) p s edges place there in
        omega (arith, bound)
    | inr here ↦ match_items-Eats items before s edges place here
  ]
  match_items-Eats (word w ∷ items) before s edges place h =
      on_word-Eats _ _ (match_items-Eats items) before w s edges place h
  match_items-Eats (words ws ∷ items) before s edges place h =
      on_words-Eats _ _ (match_items-Eats items) ws before s edges place h
  match_items-Eats (boundary ∷ items) before s edges place h =
      match_items-Eats items before s edges place (if_none-some _ _ place h)
  match_items-Eats (start_or_space ∷ items) none s edges place h = elim (or_try-cases _ _ place h) [
    | inl here ↦ match_items-Eats items none s edges place here
    | inr there ↦
        let bound = on_one-Eats _ _ (match_items-Eats items) is_space s edges place there in
        omega (arith, bound)
  ]
  match_items-Eats (start_or_space ∷ items) (some c) s edges place h =
      let bound = on_one-Eats _ _ (match_items-Eats items) is_space s edges place h in
      omega (arith, bound)
  match_items-Eats (edge i ∷ items) before s edges place h =
      match_items-Eats items before s (put edges i s) place h
  match_items-Eats (perhaps_group i j ∷ items) before s edges place h =
      elim (or_try-cases _ _ place h) [
        | inl there ↦
            let bound =
              on_word-Eats _ _ (match_items-Eats items) before (group i j edges) s edges place
                there in
            omega (arith, bound)
        | inr here ↦ match_items-Eats items before s edges place here
      ]

  -- For a pattern that asks for a character at least, the length of the text is fuel enough: with more
  -- fuel a substitution gives the same.
  pub substitute_from-enough :
      (items : List Item) (replace : Dict ℕ Text → Text) (fuel more : ℕ) (before : Option ℕ)
      (s : Text)
      → 1 ≤ least_taken items
      → length s ≤ fuel
      → length s ≤ more
      → substitute_from is_letter fuel items replace before s
        ≡ substitute_from is_letter more items replace before s
  unfolding substitute_from
  substitute_from-enough items replace zero zero before s h k l = refl
  substitute_from-enough items replace (suc fuel) (suc more) before [] h k l = refl
  substitute_from-enough items replace zero (suc more) before [] h k l = refl
  substitute_from-enough items replace (suc fuel) zero before [] h k l = refl
  substitute_from-enough items replace zero (suc more) before (c ∷ s) h k l =
      absurd (omega (arith, k))
  substitute_from-enough items replace (suc fuel) zero before (c ∷ s) h k l =
      absurd (omega (arith, l))
  substitute_from-enough items replace (suc fuel) (suc more) before (c ∷ s) h k l =
      replaced-same replace c s _ _ (match_items is_letter items before (c ∷ s) [])
        (substitute_from-enough items replace fuel more (some c) s h (omega (arith, k))
          (omega (arith, l)))
        (λ last rest edges e.
          let bound = match_items-Eats items before (c ∷ s) [] (last, rest, edges) e in
          substitute_from-enough items replace fuel more last rest h (omega (arith, k, h, bound))
            (omega (arith, l, h, bound)))
