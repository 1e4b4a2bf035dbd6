-- ===== src/Config/Remote/Keys.antt =====
-- The key of an accepted configuration.
use akari_proxy.Prelude.{
  ℕ, ◌≡◌, refl, sym, ap, ◌∙◌, subst, inl, inr, Bool, true, false, ◌||◌, Option, none, some, List,
  [], ◌∷◌, arith, ◌==◌, Bool-cases, Option-cases, some_inj, none≢some, within, is_empty, keep, Text,
  Bytes, text_eq, nat_eq, text_key,
}
use akari_proxy.Prelude.Dict.{has}
use akari_proxy.Prelude.Str.{codes, strip, is_space}
use akari_proxy.Exceptions.{Result, ok, raise, Ensures, after, after_any}
use akari_proxy.Utf8
use akari_proxy.Utf8.{encode_char}
use akari_proxy.Url.Percent.{hex_value, hex_pair}
use akari_proxy.Config.{Floats, Table, from_hex, require_str}
use akari_proxy.Config.Valid.{IsWord, strip-IsWord, looked_up, require_str-IsWord}
use akari_proxy.Config.Remote.{Host, psk_bytes, raw_psk, resolve_psk, psk_sources, found, hex_mode}

found-IsWord :
    (missing empty : Text) (text : Option Text) → Ensures IsWord (found missing empty text)
found-IsWord missing empty none = tt
found-IsWord missing empty (some text) = elim (Bool-cases (is_empty (strip text))) [
  | inl e ↦ rw e tt
  | inr e ↦ rw e (strip-IsWord text e)
]

abbrev pub IsKey : Bytes → Type 0
IsKey psk = is_empty psk ≡ false

encode-IsKey : (c : ℕ) (t : Text) → IsKey (Utf8.encode (c ∷ t))
unfolding Utf8.encode encode_char
encode-IsKey c t = ground arith

blank : (c : ℕ) → is_space c ≡ false → (c == 32 || within 9 13 c) ≡ false
unfolding is_space
blank c h = ground arith

from_hex-IsKey :
    (c : ℕ) (t : Text) (psk : Bytes) → is_space c ≡ false → from_hex (c ∷ t) ≡ some psk → IsKey psk
unfolding from_hex
from_hex-IsKey c [] psk e h = absurd (none≢some (rw (blank c e) at h))
from_hex-IsKey c (d ∷ t) psk e h = elim (Option-cases (hex_pair (hex_value c) (hex_value d))) [
  | inl f ↦ absurd (none≢some (rw (blank c e, f) at h))
  | inr (b, f) ↦ elim (Option-cases (from_hex t)) [
    | inl g ↦ absurd (none≢some (rw (blank c e, f, g) at h))
    | inr (bs, g) ↦ ap is_empty (sym (some_inj (rw (blank c e, f, g) at h)))
  ]
]

psk_bytes-IsKey : (hex : Bool) (raw : Text) → IsWord raw → Ensures IsKey (psk_bytes hex raw)
unfolding psk_bytes
psk_bytes-IsKey false raw (c, t, e, f) =
    subst (λ r. IsKey (Utf8.encode r)) (sym e) (encode-IsKey c t)
psk_bytes-IsKey true raw (c, t, e, f) =
    looked_up IsKey (from_hex raw) _ ok tt
      (λ psk g. from_hex-IsKey c t psk f (sym (ap from_hex e) ∙ g))

-- A fact that does not depend on the result.
beside :
    {A : Type 0} (P : A → Type 0) (Q : Type 0) (r : Result A)
    → Q
    → Ensures P r
    → Ensures (λ a. P a × Q) r
beside P Q (raise e) q h = tt
beside P Q (ok a) q h = (h, q)

-- A key of which the configuration names exactly one source.
abbrev pub HasOneSource : List Text → Type 0
HasOneSource sources = (source : Text) × (sources ≡ source ∷ [])

module _ (floats : Floats) (host : Host) where
  named : (table : Table floats) (key : Text) → Ensures IsWord (require_str floats table key none)
  named table key = require_str-IsWord floats table key none (λ d h. absurd (none≢some h))

  raw_psk-IsWord :
      (table : Table floats) (source : Text)
      → Ensures IsWord (raw_psk floats host table (source ∷ []))
  unfolding raw_psk
  raw_psk-IsWord table source = elim (Bool-cases (text_eq source (codes "psk"))) [
    | inl e ↦ rw e (named table (codes "psk"))
    | inr e ↦ elim (Bool-cases (text_eq source (codes "psk_file"))) [
      | inl f ↦
          rw (e, f)
            (after_any IsWord (require_str floats table (codes "psk_file") none) _
              (λ name. found-IsWord _ _ (host.read_text (host.path_of name))))
      | inr f ↦
          rw (e, f)
            (after_any IsWord (require_str floats table (codes "psk_env") none) _
              (λ name. found-IsWord _ _ (host.environ name)))
    ]
  ]

  one_source :
      (table : Table floats) (sources : List Text)
      → Ensures (λ raw. IsWord raw × HasOneSource sources) (raw_psk floats host table sources)
  unfolding raw_psk
  one_source table [] = tt
  one_source table (source ∷ []) =
      beside IsWord _ (raw_psk floats host table (source ∷ [])) (source, refl)
        (raw_psk-IsWord table source)
  one_source table (first ∷ second ∷ sources) = tt

  pub resolve_psk-IsKey :
      (table : Table floats)
      → Ensures
          (λ psk. IsKey psk × HasOneSource (keep (has table) psk_sources))
          (resolve_psk floats host table)
  unfolding resolve_psk
  resolve_psk-IsKey table =
      after (λ raw. IsWord raw × HasOneSource (keep (has table) psk_sources))
        (λ psk. IsKey psk × HasOneSource (keep (has table) psk_sources)) _ _
        (one_source table (keep (has table) psk_sources))
        (λ raw h.
          beside IsKey (HasOneSource (keep (has table) psk_sources))
            (psk_bytes (hex_mode floats host table) raw) h.1
            (psk_bytes-IsKey (hex_mode floats host table) raw h.0))
