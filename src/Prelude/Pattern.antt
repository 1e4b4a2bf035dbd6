-- ===== src/Prelude/Pattern.antt =====
-- The regular expressions that the program uses: sequences of items, matched with backtracking, the
-- longest repetition first, letters in any case. `\w` beyond ASCII is an argument.
pub mod Progress
pub mod Greedy
use Prim.Native.Nat.{ℕ, zero, suc, ◌+◌, ◌-◌}
use mathlib.Core.Bool.{Bool, false, ◌&&◌, ◌||◌, not}
use mathlib.Core.List.{List, [], ◌∷◌, ◌++◌}
use mathlib.Core.Option.{Option, none, some}
use akari_proxy.Prelude.Tests.{◌==◌, if◌then◌else◌, within, or_else}
use akari_proxy.Prelude.Lists.{length, take}
use akari_proxy.Prelude.Keys.{Text, nat_eq}
use akari_proxy.Prelude.Dict.{Dict, get, put}
use akari_proxy.Prelude.Str.{is_space}

pub data Item : Type 0 where
  -- `[…]`, `[…]*` or `[…]+` by the least number, and `[…]?`
  one : (ℕ → Bool) → Item
  run : ℕ → (ℕ → Bool) → Item
  perhaps : (ℕ → Bool) → Item
  -- a literal, and a choice of literals
  word : Text → Item
  words : List Text → Item
  -- `\b`, and `^` or `\s`
  boundary start_or_space : Item
  -- an edge of a group, and `(?P=group)?` for the group between two edges
  edge : ℕ → Item
  perhaps_group : ℕ → ℕ → Item

-- Where a match ends: the character before, what comes behind, and what came behind each edge.
abbrev pub Place : Type 0
Place = Option ℕ × Text × Dict ℕ Text

-- The text between two edges.
abbrev pub group : ℕ → ℕ → Dict ℕ Text → Text
group from to edges =
    let behind = or_else (get edges from) [] in
    take (length behind - length (or_else (get edges to) [])) behind

-- The letter that a character matches in any case.
abbrev pub fold : ℕ → ℕ
fold c =
    if within 65 90 c
    then c + 32
    else if within 0x130 0x131 c
    then b'i'
    else if c == 0x17f
    then b's'
    else if c == 0x212a
    then b'k'
    else c

-- `w` at the start of a text: the character before what follows, and what follows.
abbrev pub after_word : Option ℕ → Text → Text → Option (Option ℕ × Text)
after_word before [] s = some (before, s)
after_word before (w ∷ ws) [] = none
after_word before (w ∷ ws) (c ∷ s) =
    let rest = after_word (some c) ws s in if fold w == fold c then rest else none

abbrev pub or_try : Option Place → Option Place → Option Place
or_try (some place) other = some place
or_try none other = other

abbrev pub Next : Type 0
Next = Option ℕ → Text → Dict ℕ Text → Option Place

abbrev pub on_word : Next → Dict ℕ Text → Option (Option ℕ × Text) → Option Place
on_word next edges none = none
on_word next edges (some (before, s)) = next before s edges

abbrev pub on_words : Next → List Text → Option ℕ → Text → Dict ℕ Text → Option Place
on_words next [] before s edges = none
on_words next (w ∷ ws) before s edges =
    or_try (on_word next edges (after_word before w s)) (on_words next ws before s edges)

-- As many characters of a class as there are, then fewer.
abbrev pub on_run : Next → (ℕ → Bool) → ℕ → Option ℕ → Text → Dict ℕ Text → Option Place
on_run next p zero before [] edges = next before [] edges
on_run next p (suc least) before [] edges = none
on_run next p zero before (c ∷ s) edges =
    let longer = on_run next p zero (some c) s edges in
    let here = next before (c ∷ s) edges in if p c then or_try longer here else here
on_run next p (suc least) before (c ∷ s) edges =
    let longer = on_run next p least (some c) s edges in if p c then longer else none

abbrev pub on_one : Next → (ℕ → Bool) → Text → Dict ℕ Text → Option Place
on_one next p [] edges = none
on_one next p (c ∷ s) edges = let there = next (some c) s edges in if p c then there else none

-- What a match, or none, makes of a text from `c` on; `onward` goes on behind it.
abbrev pub replaced :
    (Option ℕ → Text → Text) → (Dict ℕ Text → Text) → ℕ → Text → Option Place → Text
replaced onward replace c s none = c ∷ onward (some c) s
replaced onward replace c s (some (last, rest, edges)) = replace edges ++ onward last rest

module _ (is_letter : ℕ → Bool) where
  abbrev is_word : ℕ → Bool
  is_word c =
      within 48 57 c
      || within 65 90 c
      || within 97 122 c
      || c == b'_'
      || (within 128 0x10ffff c && is_letter c)

  abbrev is_word_at : Option ℕ → Bool
  is_word_at none = false
  is_word_at (some c) = is_word c

  abbrev head_of : Text → Option ℕ
  head_of [] = none
  head_of (c ∷ s) = some c

  unfoldable pub match_items : List Item → Option ℕ → Text → Dict ℕ Text → Option Place
  unfolding is_space
  match_items [] before s edges = some (before, s, edges)
  match_items (one p ∷ items) before s edges = on_one (match_items items) p s edges
  match_items (run least p ∷ items) before s edges =
      on_run (match_items items) p least before s edges
  match_items (perhaps p ∷ items) before s edges =
      or_try (on_one (match_items items) p s edges) (match_items items before s edges)
  match_items (word w ∷ items) before s edges =
      on_word (match_items items) edges (after_word before w s)
  match_items (words ws ∷ items) before s edges = on_words (match_items items) ws before s edges
  match_items (boundary ∷ items) before s edges =
      let inside = is_word_at before in
      let next_inside = is_word_at (head_of s) in
      let next = match_items items before s edges in
      if (inside && not next_inside) || (not inside && next_inside) then next else none
  match_items (start_or_space ∷ items) none s edges =
      or_try (match_items items none s edges) (on_one (match_items items) is_space s edges)
  match_items (start_or_space ∷ items) (some c) s edges =
      on_one (match_items items) is_space s edges
  match_items (edge i ∷ items) before s edges = match_items items before s (put edges i s)
  match_items (perhaps_group i j ∷ items) before s edges =
      or_try (on_word (match_items items) edges (after_word before (group i j edges) s))
        (match_items items before s edges)

  -- `pattern.sub(replace, text)` for a pattern that takes a character at least: the length of the text is
  -- fuel enough.
  unfoldable pub substitute_from : ℕ → List Item → (Dict ℕ Text → Text) → Option ℕ → Text → Text
  unfolding match_items
  substitute_from zero items replace before s = s
  substitute_from (suc fuel) items replace before [] = []
  substitute_from (suc fuel) items replace before (c ∷ s) =
      replaced (substitute_from fuel items replace) replace c s
        (match_items items before (c ∷ s) [])

  unfoldable pub substitute : List Item → (Dict ℕ Text → Text) → Text → Text
  unfolding substitute_from
  substitute items replace s = substitute_from (length s) items replace none s
