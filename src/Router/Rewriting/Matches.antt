-- ===== src/Router/Rewriting/Matches.antt =====
-- Where the pattern of `_rewrite_css_to_proxy` matches.
use akari_proxy.Prelude.{
  ℕ, suc, ◌-◌, ◌≡◌, refl, ap, ◌∙◌, Bool, true, false, not, ◌&&◌, Option, some, List, [], ◌∷◌, ◌++◌,
  arith, ◌==◌, ==_self, length, is_empty, take, All, length-append, take-append_exact, Text, nat_eq,
  text_key,
}
use akari_proxy.Prelude.Dict.{Dict, get, put}
use akari_proxy.Prelude.Str.{codes, is_space}
use akari_proxy.Prelude.Pattern.{
  Item, one, run, perhaps, edge, perhaps_group, Place, fold, group, after_word, match_items,
}
use akari_proxy.Prelude.Pattern.Greedy.{
  match_items-run_stops, match_items-run, match_items-perhaps, match_items-perhaps_none,
  match_items-perhaps_group, last_of,
}
use akari_proxy.Router.Rewriting.{is_quote, outside_quotes, css_pattern}

abbrev pub in_url : ℕ → Bool
in_url c = outside_quotes c && not (c == b')')

quote-outside : (q : ℕ) → is_quote q ≡ true → (is_space q ≡ false) × (in_url q ≡ false)
unfolding is_space
quote-outside q h = (ground arith, ground arith)

minus_self : (n : ℕ) → suc n - n ≡ 1
minus_self n = omega arith

minus_all : (n : ℕ) → n - n ≡ 0
minus_all n = omega arith

not_space : is_space b')' ≡ false
unfolding is_space
not_space = refl

minus_behind : (xs ys : Text) → length (xs ++ ys) - length ys ≡ length xs
minus_behind xs ys = omega (arith, length-append xs ys)

-- The pattern from its last parts on.
abbrev closing : List Item
closing = one (λ c. c == b')') ∷ []

abbrev from_edge : List Item
from_edge = edge 2 ∷ run 0 is_space ∷ perhaps_group 0 1 ∷ closing

abbrev from_url : List Item
from_url = edge 1 ∷ run 1 in_url ∷ from_edge

abbrev pub from_start : List Item
from_start = run 0 is_space ∷ edge 0 ∷ perhaps is_quote ∷ from_url

module _ (is_letter : ℕ → Bool) (q : ℕ) (h : is_quote q ≡ true) (url post : Text) where
  abbrev pub behind : Text
  behind = q ∷ b')' ∷ post

  abbrev pub edges : Dict ℕ Text
  edges = (0, q ∷ (url ++ behind)) ∷ (1, url ++ behind) ∷ (2, behind) ∷ []

  pub quote_group : group 0 1 edges ≡ q ∷ []
  unfolding get
  quote_group = ap (λ n. take n (q ∷ (url ++ behind))) (minus_self (length (url ++ behind)))

  pub url_group : group 1 2 edges ≡ url
  unfolding get
  url_group =
      ap (λ n. take n (url ++ behind)) (minus_behind url behind) ∙ take-append_exact url behind

  quote_again :
      (before : Option ℕ) → after_word before (group 0 1 edges) behind ≡ some (some q, b')' ∷ post)
  quote_again before = ap (λ w. after_word before w behind) quote_group ∙ rw (==_self (fold q))

  abbrev pub found : Place
  found = (some b')', post, edges)

  closing_match :
      (before : Option ℕ) (url_edges : Dict ℕ Text)
      → put url_edges 2 behind ≡ edges
      → match_items is_letter from_edge before behind url_edges ≡ some found
  unfolding match_items
  closing_match before url_edges e =
      ap (λ x. match_items is_letter (run 0 is_space ∷ perhaps_group 0 1 ∷ closing) before behind x)
        e
      ∙ match_items-run_stops is_letter (perhaps_group 0 1 ∷ closing) is_space before q
          (b')' ∷ post) edges (quote-outside q h).0
      ∙ match_items-perhaps_group is_letter closing 0 1 before (some q) behind (b')' ∷ post) edges
          found (quote_again before) refl

  pub css_match :
      (before : Option ℕ)
      → is_empty url ≡ false
      → All (λ c. in_url c ≡ true) url
      → match_items is_letter css_pattern before (codes "url(" ++ (q ∷ (url ++ behind))) []
        ≡ some found
  unfolding match_items put
  css_match before is k =
      let outside = quote-outside q h in
      let quote_edges : Dict ℕ Text = (0, q ∷ (url ++ behind)) ∷ [] in
      let url_edges = put quote_edges 1 (url ++ behind) in
      match_items-run_stops is_letter (edge 0 ∷ perhaps is_quote ∷ from_url) is_space (some b'(') q
        (url ++ behind) [] outside.0
      ∙ match_items-perhaps is_letter from_url is_quote (some b'(') q (url ++ behind) quote_edges
          found h
          (match_items-run is_letter from_edge in_url (some q) url q (b')' ∷ post) url_edges found
            is k outside.1 (closing_match (last_of (some q) url) url_edges refl))

in_url-outside : (c : ℕ) → in_url c ≡ true → is_quote c ≡ false
in_url-outside c h = ground arith

-- A reference without quotes.
module _ (is_letter : ℕ → Bool) (c : ℕ) (url post : Text) where
  abbrev bare_behind : Text
  bare_behind = b')' ∷ post

  abbrev pub bare_edges : Dict ℕ Text
  bare_edges = (0, c ∷ (url ++ bare_behind)) ∷ (1, c ∷ (url ++ bare_behind)) ∷ (2, bare_behind) ∷ []

  pub no_quote_group : group 0 1 bare_edges ≡ []
  unfolding get
  no_quote_group =
      ap (λ n. take n (c ∷ (url ++ bare_behind))) (minus_all (length (c ∷ (url ++ bare_behind))))

  pub bare_group : group 1 2 bare_edges ≡ c ∷ url
  unfolding get
  bare_group =
      ap (λ n. take n (c ∷ (url ++ bare_behind))) (minus_behind (c ∷ url) bare_behind)
      ∙ take-append_exact (c ∷ url) bare_behind

  abbrev bare_found : Place
  bare_found = (some b')', post, bare_edges)

  bare_closing :
      (before : Option ℕ) (url_edges : Dict ℕ Text)
      → put url_edges 2 bare_behind ≡ bare_edges
      → match_items is_letter from_edge before bare_behind url_edges ≡ some bare_found
  unfolding match_items
  bare_closing before url_edges e =
      ap
        (λ x.
          match_items is_letter (run 0 is_space ∷ perhaps_group 0 1 ∷ closing) before bare_behind x)
        e
      ∙ match_items-run_stops is_letter (perhaps_group 0 1 ∷ closing) is_space before b')' post
          bare_edges not_space
      ∙ match_items-perhaps_group is_letter closing 0 1 before before bare_behind bare_behind
          bare_edges bare_found (ap (λ w. after_word before w bare_behind) no_quote_group) refl

  pub css_match_bare :
      (before : Option ℕ)
      → is_space c ≡ false
      → All (λ d. in_url d ≡ true) (c ∷ url)
      → match_items is_letter css_pattern before (codes "url(" ++ ((c ∷ url) ++ bare_behind)) []
        ≡ some bare_found
  unfolding match_items put
  css_match_bare before h k =
      let whole = url ++ bare_behind in
      let quote_edges : Dict ℕ Text = (0, c ∷ whole) ∷ [] in
      let url_edges = put quote_edges 1 (c ∷ whole) in
      match_items-run_stops is_letter (edge 0 ∷ perhaps is_quote ∷ from_url) is_space (some b'(') c
        whole [] h
      ∙ match_items-perhaps_none is_letter from_url is_quote (some b'(') c whole quote_edges
          (in_url-outside c k.0)
      ∙ match_items-run is_letter from_edge in_url (some b'(') (c ∷ url) b')' post url_edges
          bare_found refl k refl (bare_closing (last_of (some b'(') (c ∷ url)) url_edges refl)
