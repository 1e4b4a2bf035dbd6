-- ===== src/Router/Responses/Blocking.antt =====
-- Which responses the filter stops by their content type.
use akari_proxy.Prelude.{
  Bool, true, false≢true, ◌↔◌, sym, text_eq_iff, ==_iff, &&-true, ◌==◌, refl, ◌≡◌, subst, ◌⊎◌, inl,
  inr, false, ◌||◌, some, [], ◌∷◌, Bool-cases, some_inj, none≢some, Text, text_eq, nat_eq, text_key,
}
use akari_proxy.Prelude.Str.{codes, strip, starts_with, one_of}
use akari_proxy.Url.{partition}
use akari_proxy.ContentFilter.{
  ContentCategory, html, other, javascript, stylesheet, image, ContentFilterSettings, is_allowed,
}
use akari_proxy.Router.Responses.{unless_allowed, apply_response_filter}

unless_allowed-some :
    (settings : ContentFilterSettings) (category c : ContentCategory)
    → unless_allowed settings category ≡ some c
    → (category ≡ c) × (is_allowed settings c ≡ false)
unless_allowed-some settings category c h = elim (Bool-cases (is_allowed settings category)) [
  | inl e ↦ absurd (none≢some (rw e at h))
  | inr e ↦
      let same = some_inj (rw e at h) in (same, subst (λ x. is_allowed settings x ≡ false) same e)
]

-- The types that a category is known by.
abbrev pub Names : ContentCategory → Text → Type 0
Names javascript ct =
    (starts_with ct (codes "text/javascript") ≡ true)
    ⊎ ((ct ≡ codes "application/javascript") ⊎ (ct ≡ codes "application/x-javascript"))
Names stylesheet ct = ct ≡ codes "text/css"
Names image ct = starts_with ct (codes "image/") ≡ true
Names html ct = true ≡ false
Names other ct = true ≡ false

abbrev script_test : Text → Bool
script_test ct =
    starts_with ct (codes "text/javascript")
    || one_of (codes "application/javascript" ∷ codes "application/x-javascript" ∷ []) ct

script_test-Names : (ct : Text) → (script_test ct ≡ true) ↔ Names javascript ct
script_test-Names ct = (
  λ h. elim (Bool-cases (starts_with ct (codes "text/javascript"))) [
    | inl e ↦ inl e
    | inr e ↦ elim (Bool-cases (text_eq ct (codes "application/javascript"))) [
      | inl f ↦ inr (inl ((text_eq_iff _ _).0 f))
      | inr f ↦ elim (Bool-cases (text_eq ct (codes "application/x-javascript"))) [
        | inl g ↦ inr (inr ((text_eq_iff _ _).0 g))
        | inr g ↦ absurd (false≢true (rw (e, f, g) at h))
      ]
    ]
  ],
  λ n. named n,
)
  where
    named : Names javascript ct → script_test ct ≡ true
    named (inl h) = rw h refl
    named (inr (inl h)) =
        subst (λ x. script_test x ≡ true) (sym h) (unfold starts_with text_eq in refl)
    named (inr (inr h)) =
        subst (λ x. script_test x ≡ true) (sym h) (unfold starts_with text_eq in refl)

image-not_script :
    (ct : Text)
    → starts_with ct (codes "image/") ≡ true
    → (script_test ct ≡ false) × (text_eq ct (codes "text/css") ≡ false)
unfolding starts_with text_eq
image-not_script [] h = absurd (false≢true h)
image-not_script (c ∷ ct) h =
    let first = (==_iff c b'i').0 (&&-true (c == b'i') _ h).0 in
    subst (λ x. (script_test (x ∷ ct) ≡ false) × (text_eq (x ∷ ct) (codes "text/css") ≡ false))
      (sym first) (refl, refl)

css-not_script : (ct : Text) → text_eq ct (codes "text/css") ≡ true → script_test ct ≡ false
css-not_script ct h =
    subst (λ x. script_test x ≡ false) (sym ((text_eq_iff _ _).0 h))
      (unfold starts_with text_eq in refl)

stopped :
    (settings : ContentFilterSettings) (c : ContentCategory)
    → is_allowed settings c ≡ false
    → unless_allowed settings c ≡ some c
stopped settings c h = rw h refl

named-stopped :
    (settings : ContentFilterSettings) (content_type : Text) (c : ContentCategory)
    → is_allowed settings c ≡ false
    → Names c (strip (partition b';' content_type).0)
    → apply_response_filter settings content_type ≡ some c
unfolding apply_response_filter
named-stopped settings content_type html a n = absurd (false≢true (sym n))
named-stopped settings content_type other a n = absurd (false≢true (sym n))
named-stopped settings content_type javascript a n =
    rw ((script_test-Names _).1 n) (stopped settings javascript a)
named-stopped settings content_type stylesheet a n =
    let css = (text_eq_iff _ _).1 n in
    rw (css-not_script _ css, css) (stopped settings stylesheet a)
named-stopped settings content_type image a n =
    let (no_script, no_css) = image-not_script _ n in
    rw (no_script, no_css, n) (stopped settings image a)

stopped-named :
    (settings : ContentFilterSettings) (content_type : Text) (c : ContentCategory)
    → apply_response_filter settings content_type ≡ some c
    → (is_allowed settings c ≡ false) × Names c (strip (partition b';' content_type).0)
unfolding apply_response_filter
stopped-named settings content_type c h =
    let ct : Text = strip (partition b';' content_type).0 in
    elim (Bool-cases (script_test ct)) [
      | inl e ↦
          let (same, off) = unless_allowed-some settings javascript c (rw e at h) in
          (off, subst (λ x. Names x ct) same ((script_test-Names ct).0 e))
      | inr e ↦ elim (Bool-cases (text_eq ct (codes "text/css"))) [
        | inl f ↦
            let (same, off) = unless_allowed-some settings stylesheet c (rw (e, f) at h) in
            (off, subst (λ x. Names x ct) same ((text_eq_iff _ _).0 f))
        | inr f ↦ elim (Bool-cases (starts_with ct (codes "image/"))) [
          | inl g ↦
              let (same, off) = unless_allowed-some settings image c (rw (e, f, g) at h) in
              (off, subst (λ x. Names x ct) same g)
          | inr g ↦ absurd (none≢some (rw (e, f, g) at h))
        ]
      ]
    ]

-- The response filter stops a type, up to its first semicolon, exactly if it names a category that the
-- request filter would not let through either: scripts, style sheets and images by the names above.
pub apply_response_filter-stops :
    (settings : ContentFilterSettings) (content_type : Text) (c : ContentCategory)
    → (apply_response_filter settings content_type ≡ some c)
      ↔ ((is_allowed settings c ≡ false) × Names c (strip (partition b';' content_type).0))
apply_response_filter-stops settings content_type c =
    (stopped-named settings content_type c, λ x. named-stopped settings content_type c x.0 x.1)
