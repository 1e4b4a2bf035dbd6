-- ===== src/Exceptions.antt =====
-- Exceptions as values, with the message that `str(exc)` gives: those of
-- py/akari/remote_proxy/http_client.py, the configuration errors, and those of the language.
use akari_proxy.Prelude.Str.{codes}
use akari_proxy.Prelude.Decimal.{decimal}
use akari_proxy.Prelude.{ℕ, ◌++◌, leb, ◌≡◌, refl, ◌≢◌, ◌⊎◌, inl, inr, Bool, true, false, Text}

pub data Exn : Type 0 where
  -- InvalidURLError, BodyTooLargeError, TimeoutFetchError, and any other FetchError
  invalid_url_error body_too_large_error timeout_fetch_error fetch_error : Text → Exn
  value_error type_error config_error runtime_error : Text → Exn
  -- any other exception
  other_error : Text → Exn

-- `str(exc)`
abbrev pub message_of : Exn → Text
message_of (invalid_url_error m) = m
message_of (body_too_large_error m) = m
message_of (timeout_fetch_error m) = m
message_of (fetch_error m) = m
message_of (value_error m) = m
message_of (type_error m) = m
message_of (config_error m) = m
message_of (runtime_error m) = m
message_of (other_error m) = m

-- How a Python function ends.
pub data Result {ℓ} (A : Type ℓ) : Type ℓ where
  raise : Exn → Result A
  ok : A → Result A

-- `if not test: raise e`
abbrev pub raise_unless : Exn → Bool → Result Bool
raise_unless e false = raise e
raise_unless e true = ok true

-- What the native module raises for an argument that its type cannot hold, and for a payload of more
-- than 65535 bytes (crates/akari_udp_core/src/error.rs).
abbrev pub out_of_range : Exn
out_of_range = other_error (codes "out of range integral type conversion attempted")

abbrev pub payload_too_large : ℕ → Exn
payload_too_large n =
    value_error (codes "payload size " ++ (decimal n ++ codes " exceeds u16::MAX"))

abbrev pub payload_size : ℕ → Result Bool
payload_size n = raise_unless (payload_too_large n) (leb n 0xffff)

module _ {ℓ} {A : Type ℓ} where
  pub ok_inj : {a b : A} → ok a ≡ ok b → a ≡ b
  ok_inj h = cc

  pub ok≢raise : {a : A} {e : Exn} → ok a ≢ raise e
  ok≢raise h = cc

  pub Result-cases : (r : Result A) → ((a : A) × (r ≡ ok a)) ⊎ ((e : Exn) × (r ≡ raise e))
  Result-cases (raise e) = inr (e, refl)
  Result-cases (ok a) = inl (a, refl)

  -- What follows is done unless an exception was raised.
  infixl 5 ◌>>=◌
  abbrev pub ◌>>=◌ {κ} : {B : Type κ} → Result A → (A → Result B) → Result B
  raise e >>= next = raise e
  ok a >>= next = next a

  pub >>=-ok {κ} :
      {B : Type κ} (r : Result A) (next : A → Result B) {b : B}
      → (r >>= next) ≡ ok b
      → (a : A) × (r ≡ ok a) × (next a ≡ ok b)
  >>=-ok (raise e) next h = cc
  >>=-ok (ok a) next h = (a, refl, h)

pub raise_inj {ℓ} : (A : Type ℓ) {e f : Exn} {r : Result A} → r ≡ raise e → r ≡ raise f → e ≡ f
raise_inj A h k = cc

-- What holds of the result, if there is one.
abbrev pub Ensures {ℓ κ} : {A : Type ℓ} → (A → Type κ) → Result A → Type κ
Ensures P (raise e) = Unit
Ensures P (ok a) = P a

module _ {ℓ κ μ} {A : Type ℓ} {B : Type κ} where
  pub after :
      (P : A → Type μ) (Q : B → Type μ) (r : Result A) (next : A → Result B)
      → Ensures P r
      → ((a : A) → P a → Ensures Q (next a))
      → Ensures Q (r >>= next)
  after P Q (raise e) next h k = tt
  after P Q (ok a) next h k = k a h

  pub after_any :
      (Q : B → Type μ) (r : Result A) (next : A → Result B)
      → ((a : A) → Ensures Q (next a))
      → Ensures Q (r >>= next)
  after_any Q (raise e) next k = tt
  after_any Q (ok a) next k = k a
