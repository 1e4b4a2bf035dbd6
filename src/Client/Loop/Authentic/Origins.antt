-- ===== src/Client/Loop/Authentic/Origins.antt =====
-- What the client knows of the aggregate tag comes from packets that arrived.
use akari_proxy.Prelude.{
  ℕ, ◌≡◌, refl, subst, Bool, true, false, false≢true, ◌&&◌, Option, none, some, List, ltb, leb,
  if◌then◌else◌, if-some, is_empty, take, any, Bytes, text_eq, nat_eq, text_key,
}
use akari_proxy.Wire.{Datagram, Packet, Payload, resp_body, ack_v2, has_flag, flag_agg_tag}
use akari_proxy.Client.Config.{ClientConfig}
use akari_proxy.Client.Exchange.{
  Exchange, Request, ResponseOutcome, Step, again, done, send, send_nack, send_ack, allow_nack,
  give_up,
}
use akari_proxy.Client.Asking.{
  retry_request, ask_headers, ask_body, or_again, expired, on_timeout, tail_nack, first_ack,
}
use akari_proxy.Client.Missing.{first_missing_seq}

-- Whether a payload carries this aggregate tag.
unfoldable pub brings : Bytes → Payload → Bool
brings tag (resp_body seq total chunk (some t)) = text_eq t tag
brings tag _ = false

-- Whether a packet has the flag of the aggregate tag.
abbrev pub flagged : Packet → Bool
flagged packet = has_flag packet.header.flags flag_agg_tag

abbrev pub tag_came : Bytes → List Packet → Bool
tag_came tag packets = any (λ p. brings tag p.payload) packets

pub record Traced (config : ClientConfig) (st : Exchange) : Type 0 where
  pub mode : st.agg_mode ≡ (any flagged st.packets && leb 3 config.version)
  pub origin : (tag : Bytes) → st.accumulator.agg_tag ≡ some tag → tag_came tag st.packets ≡ true

-- An outcome that is complete and without error, of an answer that announces an aggregate tag, has a
-- body whose tag came.
pub record Authentic (hmac_sha256 : Bytes → Bytes → Bytes) (config : ClientConfig)
    (outcome : ResponseOutcome) : Type 0 where
  pub authentic :
      outcome.complete ≡ true
      → outcome.error ≡ none
      → leb 3 config.version ≡ true
      → any flagged outcome.packets ≡ true
      → (body : Bytes) × (outcome.body ≡ some body)
        × (tag_came (take 16 (hmac_sha256 config.psk body)) outcome.packets ≡ true)

abbrev pub TracedStep : (Bytes → Bytes → Bytes) → ClientConfig → Step → Type 0
TracedStep hmac_sha256 config (again st) = Traced config st
TracedStep hmac_sha256 config (done outcome) = Authentic hmac_sha256 config outcome

module _ (hmac_sha256 : Bytes → Bytes → Bytes) (config : ClientConfig) (request : Request) where
  pub if-Traced :
      (b : Bool) (s t : Step)
      → TracedStep hmac_sha256 config s
      → TracedStep hmac_sha256 config t
      → TracedStep hmac_sha256 config (if b then s else t)
  if-Traced true s t a b = a
  if-Traced false s t a b = b

  pub choose-Traced :
      (b : Bool) (s t : Exchange)
      → Traced config s
      → Traced config t
      → Traced config (if b then s else t)
  choose-Traced true s t a b = a
  choose-Traced false s t a b = b

  -- Sending changes neither the packets nor the tag.
  send_nack-Traced :
      (d : Datagram) (st : Exchange) → Traced config st → Traced config (send_nack d st)
  unfolding send_nack send
  send_nack-Traced d st a = record { mode = a.mode; origin = a.origin }

  or_again-Traced :
      (o : Option Exchange) (rest : Step)
      → ((st : Exchange) → o ≡ some st → Traced config st)
      → TracedStep hmac_sha256 config rest
      → TracedStep hmac_sha256 config (or_again o rest)
  or_again-Traced none rest f r = r
  or_again-Traced (some st) rest f r = f st refl

  retry_request-Traced :
      (now : ℕ) (st : Exchange) {st' : Exchange}
      → Traced config st
      → retry_request request now st ≡ some st'
      → Traced config st'
  unfolding retry_request send
  retry_request-Traced now st a h =
      subst (Traced config) (if-some (is_empty st.packets && ltb 0 st.req_retries_left) h).1
        (record { mode = a.mode; origin = a.origin })

  ask_headers-Traced :
      (now : ℕ) (st : Exchange) {st' : Exchange}
      → Traced config st
      → ask_headers config request now st ≡ some st'
      → Traced config st'
  unfolding ask_headers send_nack send
  ask_headers-Traced now st a h =
      subst (Traced config) (if-some (allow_nack config st && _) h).1
        (record { mode = a.mode; origin = a.origin })

  ask_body-Traced :
      (now : ℕ) (st : Exchange) {st' : Exchange}
      → Traced config st
      → ask_body config request now st ≡ some st'
      → Traced config st'
  unfolding ask_body send_nack send
  ask_body-Traced now st a h =
      subst (Traced config) (if-some (allow_nack config st && _) h).1
        (record { mode = a.mode; origin = a.origin })

  give_up-Authentic : (st : Exchange) → Authentic hmac_sha256 config (give_up config request st)
  unfolding give_up
  give_up-Authentic st = record { authentic = λ c e v f. absurd (false≢true c) }

  pub on_timeout-Traced :
      (now : ℕ) (st : Exchange)
      → Traced config st
      → TracedStep hmac_sha256 config (on_timeout config request now st)
  unfolding on_timeout
  on_timeout-Traced now st a =
      or_again-Traced (retry_request request now st) _ (λ st' e. retry_request-Traced now st a e)
        (or_again-Traced (ask_headers config request now st) _
          (λ st' e. ask_headers-Traced now st a e)
          (or_again-Traced (ask_body config request now st) _ (λ st' e. ask_body-Traced now st a e)
            (if-Traced (expired config now st) (done (give_up config request st)) (again st)
              (give_up-Authentic st) a)))

  pub tail_nack-Traced :
      (seq : ℕ) (d : Datagram) (st : Exchange)
      → Traced config st
      → Traced config (tail_nack config seq d st)
  unfolding tail_nack
  tail_nack-Traced seq d st a =
      choose-Traced (allow_nack config st && _) _ st (send_nack-Traced d st a) a

  pub first_ack-Traced :
      (st : Exchange) → Traced config st → Traced config (first_ack config request st)
  unfolding first_ack send_ack send
  first_ack-Traced st a =
      choose-Traced (ltb st.acks_sent config.max_ack_rounds && _) _ st
        (answered (first_missing_seq st.accumulator)) a
    where
      answered :
          (first : Option ℕ)
          → Traced config (elim first [
            | none ↦ st
            | some i ↦ send_ack (ack_v2 i request.message_id request.timestamp config.psk) st
          ])
      answered none = a
      answered (some i) = record { mode = a.mode; origin = a.origin }
