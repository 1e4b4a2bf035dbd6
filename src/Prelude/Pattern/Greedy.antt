-- ===== src/Prelude/Pattern/Greedy.antt =====
-- Where the first way to match an item, the longest, succeeds, it is taken.
use akari_proxy.Prelude.{
  ℕ, ◌≡◌, refl, sym, ap, ◌∙◌, Bool, true, false, false≢true, Option, none, some, List, [], ◌∷◌,
  ◌++◌, map, arith, if◌then◌else◌, is_empty, All, Text, nat_eq, text_key,
}
use akari_proxy.Prelude.Dict.{Dict}
use akari_proxy.Prelude.Str.{starts_with}
use akari_proxy.Prelude.Pattern.{
  Item, run, word, perhaps, perhaps_group, Place, fold, group, after_word, or_try, Next, on_run,
  on_word, match_items,
}

or_try-first : (a b : Option Place) (place : Place) → a ≡ some place → or_try a b ≡ some place
or_try-first a b place h = ap (λ x. or_try x b) h

-- The character before what follows a text.
abbrev pub last_of : Option ℕ → Text → Option ℕ
last_of before [] = before
last_of before (c ∷ s) = last_of (some c) s

on_run-stops :
    (next : Next) (p : ℕ → Bool) (before : Option ℕ) (c : ℕ) (s : Text) (edges : Dict ℕ Text)
    → p c ≡ false
    → on_run next p 0 before (c ∷ s) edges ≡ next before (c ∷ s) edges
on_run-stops next p before c s edges h = rw h

-- A run takes a text of the class that the rest of the pattern, behind it, can follow.
on_run-takes :
    (next : Next) (p : ℕ → Bool) (before : Option ℕ) (u : Text) (c : ℕ) (s : Text)
    (edges : Dict ℕ Text) (place : Place)
    → All (λ d. p d ≡ true) u
    → p c ≡ false
    → next (last_of before u) (c ∷ s) edges ≡ some place
    → on_run next p 0 before (u ++ (c ∷ s)) edges ≡ some place
on_run-takes next p before [] c s edges place h k e = on_run-stops next p before c s edges k ∙ e
on_run-takes next p before (d ∷ u) c s edges place h k e =
    let here = next before (d ∷ (u ++ (c ∷ s))) edges in
    ap (λ b. if b then or_try (on_run next p 0 (some d) (u ++ (c ∷ s)) edges) here else here) h.0
    ∙ or_try-first _ _ place (on_run-takes next p (some d) u c s edges place h.1 k e)

module _ (is_letter : ℕ → Bool) (items : List Item) where
  pub match_items-run_stops :
      (p : ℕ → Bool) (before : Option ℕ) (c : ℕ) (s : Text) (edges : Dict ℕ Text)
      → p c ≡ false
      → match_items is_letter (run 0 p ∷ items) before (c ∷ s) edges
        ≡ match_items is_letter items before (c ∷ s) edges
  unfolding match_items
  match_items-run_stops p before c s edges h =
      on_run-stops (match_items is_letter items) p before c s edges h

  pub match_items-run :
      (p : ℕ → Bool) (before : Option ℕ) (u : Text) (c : ℕ) (s : Text) (edges : Dict ℕ Text)
      (place : Place)
      → is_empty u ≡ false
      → All (λ d. p d ≡ true) u
      → p c ≡ false
      → match_items is_letter items (last_of before u) (c ∷ s) edges ≡ some place
      → match_items is_letter (run 1 p ∷ items) before (u ++ (c ∷ s)) edges ≡ some place
  unfolding match_items
  match_items-run p before [] c s edges place n h k e = absurd (false≢true (sym n))
  match_items-run p before (d ∷ u) c s edges place n h k e =
      ap
        (λ b.
          if b
          then on_run (match_items is_letter items) p 0 (some d) (u ++ (c ∷ s)) edges
          else none)
        h.0
      ∙ on_run-takes (match_items is_letter items) p (some d) u c s edges place h.1 k e

  pub match_items-perhaps :
      (p : ℕ → Bool) (before : Option ℕ) (c : ℕ) (s : Text) (edges : Dict ℕ Text) (place : Place)
      → p c ≡ true
      → match_items is_letter items (some c) s edges ≡ some place
      → match_items is_letter (perhaps p ∷ items) before (c ∷ s) edges ≡ some place
  unfolding match_items
  match_items-perhaps p before c s edges place h e =
      let there = match_items is_letter items (some c) s edges in
      or_try-first (if p c then there else none) (match_items is_letter items before (c ∷ s) edges)
        place (ap (λ b. if b then there else none) h ∙ e)

  pub match_items-perhaps_none :
      (p : ℕ → Bool) (before : Option ℕ) (c : ℕ) (s : Text) (edges : Dict ℕ Text)
      → p c ≡ false
      → match_items is_letter (perhaps p ∷ items) before (c ∷ s) edges
        ≡ match_items is_letter items before (c ∷ s) edges
  unfolding match_items
  match_items-perhaps_none p before c s edges h = rw h

  pub match_items-perhaps_group :
      (i j : ℕ) (before last : Option ℕ) (s rest : Text) (edges : Dict ℕ Text) (place : Place)
      → after_word before (group i j edges) s ≡ some (last, rest)
      → match_items is_letter items last rest edges ≡ some place
      → match_items is_letter (perhaps_group i j ∷ items) before s edges ≡ some place
  unfolding match_items
  match_items-perhaps_group i j before last s rest edges place h e =
      or_try-first _ _ place (ap (on_word (match_items is_letter items) edges) h ∙ e)

  pub match_items-word_none :
      (w : Text) (before : Option ℕ) (s : Text) (edges : Dict ℕ Text)
      → after_word before w s ≡ none
      → match_items is_letter (word w ∷ items) before s edges ≡ none
  unfolding match_items
  match_items-word_none w before s edges h = ap (on_word (match_items is_letter items) edges) h

-- A word is not found where the text does not begin with it in any case.
pub after_word-none :
    (before : Option ℕ) (w s : Text)
    → starts_with (map fold s) (map fold w) ≡ false
    → after_word before w s ≡ none
unfolding starts_with
after_word-none before [] s h = absurd (false≢true (sym h))
after_word-none before (w ∷ ws) [] h = refl
after_word-none before (w ∷ ws) (c ∷ s) h = ground (arith, after_word-none (some c) ws s)
