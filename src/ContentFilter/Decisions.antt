-- ===== src/ContentFilter/Decisions.antt =====
-- What the filter decides after an update of its switches.
use akari_proxy.Prelude.{
  ◌≡◌, refl, sym, ap, ◌∙◌, inl, inr, Bool, true, false, Option, some, [], ◌++◌, Bool-cases, or_else,
  Text, nat_eq, text_key,
}
use akari_proxy.Prelude.Str.{codes}
use akari_proxy.ContentFilter.{
  ContentCategory, html, javascript, stylesheet, image, other, category_value,
  ContentFilterSettings, classify, is_allowed, evaluate, update,
}

-- The switch of a category among the arguments of an update.
abbrev pub switch_of :
    ContentCategory → Option Bool → Option Bool → Option Bool → Option Bool → Option Bool
switch_of html js css img oth = some true
switch_of javascript js css img oth = js
switch_of stylesheet js css img oth = css
switch_of image js css img oth = img
switch_of other js css img oth = oth

is_allowed-update :
    (s : ContentFilterSettings) (js css img oth : Option Bool) (c : ContentCategory)
    → is_allowed (update s js css img oth) c ≡ or_else (switch_of c js css img oth) (is_allowed s c)
unfolding is_allowed update
is_allowed-update s js css img oth html = refl
is_allowed-update s js css img oth javascript = refl
is_allowed-update s js css img oth stylesheet = refl
is_allowed-update s js css img oth image = refl
is_allowed-update s js css img oth other = refl

evaluate-category :
    (s : ContentFilterSettings) (url : Text) → (evaluate s url).category ≡ classify url
unfolding evaluate
evaluate-category s url = elim (Bool-cases (is_allowed s (classify url))) [
  | inl e ↦ rw e refl
  | inr e ↦ rw e refl
]

evaluate-allowed :
    (s : ContentFilterSettings) (url : Text)
    → (evaluate s url).allowed ≡ is_allowed s (classify url)
unfolding evaluate
evaluate-allowed s url = elim (Bool-cases (is_allowed s (classify url))) [
  | inl e ↦ rw e refl
  | inr e ↦ rw e refl
]

evaluate-stopped :
    (s : ContentFilterSettings) (url : Text)
    → is_allowed s (classify url) ≡ false
    → ((evaluate s url).status_code ≡ some 204)
      × ((evaluate s url).body ≡ [])
      × ((evaluate s url).reason
          ≡ some (category_value (classify url) ++ codes " disabled by content filter"))
unfolding evaluate
evaluate-stopped s url e = rw e (refl, refl, refl)

-- After an update the filter lets a URL through as the given switch of its category says, and as
-- before where that switch was not given; HTML always passes. A URL that it stops is answered 204 with
-- an empty body and the category's name.
pub evaluate-update :
    (s : ContentFilterSettings) (js css img oth : Option Bool) (url : Text)
    → let decision = evaluate (update s js css img oth) url in
      (decision.category ≡ classify url)
      × (decision.allowed
          ≡ or_else (switch_of (classify url) js css img oth) (evaluate s url).allowed)
      × (decision.allowed ≡ false
          → (decision.status_code ≡ some 204)
            × (decision.body ≡ [])
            × (decision.reason
                ≡ some (category_value (classify url) ++ codes " disabled by content filter")))
evaluate-update s js css img oth url =
    let updated : ContentFilterSettings = update s js css img oth in
    (
      evaluate-category updated url,
      evaluate-allowed updated url
          ∙ is_allowed-update s js css img oth (classify url)
          ∙ ap (or_else (switch_of (classify url) js css img oth)) (sym (evaluate-allowed s url)),
      λ h. evaluate-stopped updated url (sym (evaluate-allowed updated url) ∙ h),
    )
