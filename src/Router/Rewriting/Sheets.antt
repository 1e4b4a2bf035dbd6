-- ===== src/Router/Rewriting/Sheets.antt =====
-- `_rewrite_css_to_proxy` on a style sheet.
use akari_proxy.Prelude.{
  ℕ, zero, suc, ◌≤◌, ◌≡◌, refl, ap, ap₂, ◌∙◌, Bool, true, false, Option, none, some, List, [], ◌∷◌,
  ◌++◌, map, append_assoc, arith, length, is_empty, All, all, length-append, Text, nat_eq, text_key,
}
use akari_proxy.Prelude.Dict.{Dict}
use akari_proxy.Prelude.Str.{codes, is_space, starts_with}
use akari_proxy.Prelude.Pattern.{fold, replaced, substitute_from, substitute}
use akari_proxy.Prelude.Pattern.Greedy.{match_items-word_none, after_word-none}
use akari_proxy.Utf8
use akari_proxy.Utf8.{IsScalar, decode-encode}
use akari_proxy.Router.Links.{to_proxy_url}
use akari_proxy.Router.Rewriting.{is_quote, css_pattern, css_repl, rewrite_css}
use akari_proxy.Router.Rewriting.Matches.{
  in_url, from_start, quote_group, url_group, css_match, no_quote_group, bare_group, css_match_bare,
}

-- A character, or a reference `url('…')` in one of the quotes, or `url(…)` with the first character of
-- its URL.
pub data Piece : Type 0 where
  plain : ℕ → Piece
  reference : ℕ → Text → Piece
  bare : ℕ → Text → Piece

abbrev pub css_text : List Piece → Text
css_text [] = []
css_text (plain c ∷ sheet) = c ∷ css_text sheet
css_text (reference quote url ∷ sheet) =
    codes "url(" ++ (quote ∷ (url ++ (quote ∷ b')' ∷ css_text sheet)))
css_text (bare c url ∷ sheet) = codes "url(" ++ ((c ∷ url) ++ (b')' ∷ css_text sheet))

-- No character begins `url(` in any case but in a reference, whose URL has no quote and no `)`; without
-- quotes it begins with no white space.
abbrev pub IsSheet : List Piece → Type 0
IsSheet [] = Unit
IsSheet (plain c ∷ sheet) =
    (starts_with (map fold (c ∷ css_text sheet)) (codes "url(") ≡ false) × IsSheet sheet
IsSheet (reference quote url ∷ sheet) =
    (is_quote quote ≡ true)
    × (is_empty url ≡ false)
    × All (λ c. in_url c ≡ true) url
    × IsSheet sheet
IsSheet (bare c url ∷ sheet) =
    (is_space c ≡ false) × All (λ d. in_url d ≡ true) (c ∷ url) × IsSheet sheet

-- The text of a sheet with a link in the place of each URL.
abbrev pub with_links : (Text → Text) → List Piece → Text
with_links link [] = []
with_links link (plain c ∷ sheet) = c ∷ with_links link sheet
with_links link (reference quote url ∷ sheet) =
    codes "url(" ++ (quote ∷ (link url ++ (quote ∷ b')' ∷ with_links link sheet)))
with_links link (bare c url ∷ sheet) =
    codes "url(" ++ (link (c ∷ url) ++ (b')' ∷ with_links link sheet))

module _ (is_letter : ℕ → Bool) (script proxy source_url : Text) (use_encryption : Bool) where
  abbrev link : Text → Text
  link url = to_proxy_url proxy url source_url use_encryption

  abbrev repl : Dict ℕ Text → Text
  repl = css_repl is_letter script proxy source_url use_encryption

  abbrev rewritten_from : ℕ → Option ℕ → Text → Text
  rewritten_from fuel = substitute_from is_letter fuel css_pattern repl

  plain_kept :
      (fuel : ℕ) (before : Option ℕ) (c : ℕ) (s : Text)
      → starts_with (map fold (c ∷ s)) (codes "url(") ≡ false
      → rewritten_from (suc fuel) before (c ∷ s) ≡ c ∷ rewritten_from fuel (some c) s
  unfolding substitute_from
  plain_kept fuel before c s h =
      ap (λ m. replaced (rewritten_from fuel) repl c s m)
        (match_items-word_none is_letter from_start (codes "url(") before (c ∷ s) []
          (after_word-none before (codes "url(") (c ∷ s) h))

  reference_linked :
      (fuel : ℕ) (before : Option ℕ) (q : ℕ) (url post : Text)
      → is_quote q ≡ true
      → is_empty url ≡ false
      → All (λ c. in_url c ≡ true) url
      → rewritten_from (suc fuel) before (codes "url(" ++ (q ∷ (url ++ (q ∷ b')' ∷ post))))
        ≡ codes "url(" ++ (q ∷ (link url ++ (q ∷ b')' ∷ rewritten_from fuel (some b')') post)))
  unfolding substitute_from
  reference_linked fuel before q url post h is k =
      ap
        (λ m.
          replaced (rewritten_from fuel) repl b'u' (codes "rl(" ++ (q ∷ (url ++ (q ∷ b')' ∷ post))))
            m)
        (css_match is_letter q h url post before is k)
      ∙ ap₂
          (λ g u.
            (codes "url(" ++ (g ++ (link u ++ (g ++ codes ")"))))
            ++ rewritten_from fuel (some b')') post)
          (quote_group is_letter q h url post) (url_group is_letter q h url post)
      ∙ ap (λ s. codes "url(" ++ (q ∷ s))
          (append_assoc (link url) (q ∷ b')' ∷ []) (rewritten_from fuel (some b')') post))

  bare_linked :
      (fuel : ℕ) (before : Option ℕ) (c : ℕ) (url post : Text)
      → is_space c ≡ false
      → All (λ d. in_url d ≡ true) (c ∷ url)
      → rewritten_from (suc fuel) before (codes "url(" ++ ((c ∷ url) ++ (b')' ∷ post)))
        ≡ codes "url(" ++ (link (c ∷ url) ++ (b')' ∷ rewritten_from fuel (some b')') post))
  unfolding substitute_from
  bare_linked fuel before c url post h k =
      ap
        (λ m.
          replaced (rewritten_from fuel) repl b'u' (codes "rl(" ++ ((c ∷ url) ++ (b')' ∷ post))) m)
        (css_match_bare is_letter c url post before h k)
      ∙ ap₂
          (λ g u.
            (codes "url(" ++ (g ++ (link u ++ (g ++ codes ")"))))
            ++ rewritten_from fuel (some b')') post)
          (no_quote_group is_letter c url post) (bare_group is_letter c url post)
      ∙ ap (λ s. codes "url(" ++ s)
          (append_assoc (link (c ∷ url)) (b')' ∷ []) (rewritten_from fuel (some b')') post))

  rewritten_sheet :
      (fuel : ℕ) (before : Option ℕ) (sheet : List Piece)
      → IsSheet sheet
      → length (css_text sheet) ≤ fuel
      → rewritten_from fuel before (css_text sheet) ≡ with_links link sheet
  unfolding substitute_from
  rewritten_sheet zero before [] h k = refl
  rewritten_sheet (suc fuel) before [] h k = refl
  rewritten_sheet zero before (plain c ∷ sheet) h k = absurd (omega (arith, k))
  rewritten_sheet zero before (reference q url ∷ sheet) h k = absurd (omega (arith, k))
  rewritten_sheet zero before (bare c url ∷ sheet) h k = absurd (omega (arith, k))
  rewritten_sheet (suc fuel) before (plain c ∷ sheet) h k =
      plain_kept fuel before c (css_text sheet) h.0
      ∙ ap (◌∷◌ c) (rewritten_sheet fuel (some c) sheet h.1 (omega (arith, k)))
  rewritten_sheet (suc fuel) before (reference q url ∷ sheet) (h, is, all, later) k =
      reference_linked fuel before q url (css_text sheet) h is all
      ∙ ap (λ s. codes "url(" ++ (q ∷ (link url ++ (q ∷ b')' ∷ s))))
          (rewritten_sheet fuel (some b')') sheet later
            (omega (arith, k, length-append url (q ∷ b')' ∷ css_text sheet))))
  rewritten_sheet (suc fuel) before (bare c url ∷ sheet) (h, all, later) k =
      bare_linked fuel before c url (css_text sheet) h all
      ∙ ap (λ s. codes "url(" ++ (link (c ∷ url) ++ (b')' ∷ s)))
          (rewritten_sheet fuel (some b')') sheet later
            (omega (arith, k, length-append (c ∷ url) (b')' ∷ css_text sheet))))

  -- In a style sheet that UTF-8 can hold, the URL of each reference `url(…)`, in quotes of either kind or
  -- in none, becomes its link of the proxy, and all else stays as it was; where a URL has no quote and no
  -- `)`, and one without quotes begins with no white space.
  pub rewrite_css-with_links :
      (sheet : List Piece)
      → IsSheet sheet
      → All IsScalar (css_text sheet)
      → rewrite_css is_letter script proxy source_url use_encryption (Utf8.encode (css_text sheet))
        ≡ Utf8.encode (with_links link sheet)
  unfolding rewrite_css substitute
  rewrite_css-with_links sheet h k =
      ap (λ s. Utf8.encode (substitute is_letter css_pattern repl s))
        (decode-encode (css_text sheet) k)
      ∙ ap Utf8.encode (rewritten_sheet (length (css_text sheet)) none sheet h (omega arith))
