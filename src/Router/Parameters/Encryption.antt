-- ===== src/Router/Parameters/Encryption.antt =====
-- The choice of encryption, and what the user's input becomes.
use akari_proxy.Prelude.{
  ℕ, ◌≡◌, refl, subst, inl, inr, true, not, ◌&&◌, some, [], ◌∷◌, ◌++◌, Bool-cases, some_inj,
  none≢some, Text, nat_eq, text_key,
}
use akari_proxy.Prelude.Str.{codes, starts_with, contains}
use akari_proxy.Router.Parameters.{normalize_user_input, is_http}

-- What `_normalize_user_input` accepts and is not empty is an HTTP or HTTPS URL.
pub normalize_user_input-is_http :
    (value : Text) (c : ℕ) (url : Text)
    → normalize_user_input value ≡ some (c ∷ url)
    → is_http (c ∷ url) ≡ true
unfolding normalize_user_input
normalize_user_input-is_http [] c url h = cc
normalize_user_input-is_http (d ∷ value) c url h = elim (Bool-cases (is_http (d ∷ value))) [
  | inl e ↦ subst (λ u. is_http u ≡ true) (some_inj (rw e at h)) e
  | inr e ↦
      elim (Bool-cases
        (not (contains (d ∷ value) (codes "://")) && contains (d ∷ value) (codes "."))) [
          | inl f ↦
              subst (λ u. is_http u ≡ true) (some_inj (rw (e, f) at h)) (https-is_http (d ∷ value))
          | inr f ↦ absurd (none≢some (rw (e, f) at h))
        ]
]
  where
    https-is_http : (s : Text) → is_http (codes "https://" ++ s) ≡ true
    https-is_http s = unfold starts_with in refl
