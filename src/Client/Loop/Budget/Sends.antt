-- ===== src/Client/Loop/Budget/Sends.antt =====
-- What the client sends when nothing came and in answer to a packet is accounted for.
use akari_proxy.Prelude.{
  ℕ, List, ◌-◌, ◌<◌, ◌≡◌, refl, subst, inl, inr, Bool, true, false, not, ◌&&◌, Option, none, some,
  arith, ltb, ◌==◌, if◌then◌else◌, ltb→lt, Bool-cases, if-some, &&-true, or_else, is_empty, nat_eq,
  text_key,
}
use akari_proxy.Wire.{Datagram}
use akari_proxy.Client.Config.{ClientConfig}
use akari_proxy.Client.Exchange.{
  Exchange, Request, Step, done, send, send_nack, send_ack, allow_nack, missing_seqs, give_up,
}
use akari_proxy.Client.Asking.{
  retry_request, ask_headers, ask_body, expired, on_timeout, or_again, tail_nack, first_ack,
}
use akari_proxy.Client.Loop.{with_accumulator}
use akari_proxy.Client.Accumulator.{ResponseAccumulator}
use akari_proxy.Client.Missing.{first_missing_seq}
use akari_proxy.Wire.{ack_v2}
use akari_proxy.Client.Loop.Budget.Counters.{
  Accounted, Extends, AccountedStep, send-Accounts, allowed,
}
use akari_proxy.Client.Loop.Budget.Counters.{is_nack, is_ack, one_if}
use akari_proxy.Wire.{nack_v2, nack_body_v3}
use akari_proxy.Client.Missing.{build_missing_bitmap_from_list}
use akari_proxy.Prelude.{ap, leb}

module _ (config : ClientConfig) (request : Request) where
  pub kept :
      (acc : ResponseAccumulator) (st : Exchange)
      → Accounted config st
      → Accounted config (with_accumulator acc st)
  kept acc st a = record { left = a.left; accounts = a.accounts }

  send_nack-Accounted :
      (d : Datagram) (st : Exchange)
      → (is_nack d ≡ true) × (is_ack d ≡ false)
      → allow_nack config st ≡ true
      → Accounted config st
      → Accounted config (send_nack d st)
  unfolding send_nack send
  send_nack-Accounted d st kind h a = record {
    left = a.left;
    accounts =
        send-Accounts config d st.sent st.bytes_sent st.nacks_sent st.acks_sent
          (config.initial_request_retries - st.req_retries_left) _ _ _ a.accounts (omega arith)
          (omega (arith, ap one_if kind.0)) (omega (arith, ap one_if kind.1)) (allowed config st h)
          a.accounts.acks_fit a.accounts.retries_fit;
  }

  send_ack-Accounted :
      (d : Datagram) (st : Exchange)
      → (is_nack d ≡ false) × (is_ack d ≡ true)
      → st.acks_sent < config.max_ack_rounds
      → Accounted config st
      → Accounted config (send_ack d st)
  unfolding send_ack send
  send_ack-Accounted d st kind h a = record {
    left = a.left;
    accounts =
        send-Accounts config d st.sent st.bytes_sent st.nacks_sent st.acks_sent
          (config.initial_request_retries - st.req_retries_left) _ _ _ a.accounts (omega arith)
          (omega (arith, ap one_if kind.0)) (omega (arith, ap one_if kind.1)) a.accounts.nacks_fit
          (omega arith) a.accounts.retries_fit;
  }

  give_up-Accounted :
      (st : Exchange)
      → Accounted config st
      → AccountedStep config request st.sent (done (give_up config request st))
  unfolding give_up
  give_up-Accounted st a = (st.sent, st.acks_sent, inl refl, a.accounts)

  retry_request-Accounted :
      (now : ℕ) (st : Exchange) {st' : Exchange}
      → (is_nack request.datagram ≡ false) × (is_ack request.datagram ≡ false)
      → Accounted config st
      → retry_request request now st ≡ some st'
      → Accounted config st'
  unfolding retry_request send
  retry_request-Accounted now st kind a h =
      let (guard, e) = if-some (is_empty st.packets && ltb 0 st.req_retries_left) h in
      let (_, left) = &&-true (is_empty st.packets) (ltb 0 st.req_retries_left) guard in
      let l = ltb→lt 0 st.req_retries_left left in
      let fits = a.left in
      subst (Accounted config) e (record {
        left = omega arith;
        accounts =
            send-Accounts config request.datagram st.sent st.bytes_sent st.nacks_sent st.acks_sent
              (config.initial_request_retries - st.req_retries_left) _ _ _ a.accounts (omega arith)
              (omega (arith, ap one_if kind.0)) (omega (arith, ap one_if kind.1))
              a.accounts.nacks_fit a.accounts.acks_fit (omega arith);
      })

  ask_headers-Accounted :
      (now : ℕ) (st : Exchange) {st' : Exchange}
      → Accounted config st
      → ask_headers config request now st ≡ some st'
      → Accounted config st'
  unfolding ask_headers
  ask_headers-Accounted now st a h =
      let (guard, e) = if-some (allow_nack config st && _) h in
      let (allow, _) = &&-true (allow_nack config st) _ guard in
      subst (Accounted config) e (
        let b = send_nack-Accounted _ st (refl, refl) allow a in
        record { left = b.left; accounts = b.accounts })

  body_nack :
      (st : Exchange)
      → let bitmap = build_missing_bitmap_from_list (missing_seqs st) in
        let d =
          if leb 3 config.version
          then nack_body_v3 bitmap request.message_id 0 config.psk
          else nack_v2 bitmap request.message_id request.timestamp config.psk in
        (is_nack d ≡ true) × (is_ack d ≡ false)
  body_nack st = elim (Bool-cases (leb 3 config.version)) [
    | inl e ↦ rw e (refl, refl)
    | inr e ↦ rw e (refl, refl)
  ]

  ask_body-Accounted :
      (now : ℕ) (st : Exchange) {st' : Exchange}
      → Accounted config st
      → ask_body config request now st ≡ some st'
      → Accounted config st'
  unfolding ask_body
  ask_body-Accounted now st a h =
      let (guard, e) = if-some (allow_nack config st && _) h in
      let (allow, _) = &&-true (allow_nack config st) _ guard in
      subst (Accounted config) e (
        let b = send_nack-Accounted _ st (body_nack st) allow a in
        record { left = b.left; accounts = b.accounts })

  or_again-Accounted :
      (before : List Datagram) (o : Option Exchange) (rest : Step)
      → ((st : Exchange) → o ≡ some st → Accounted config st)
      → AccountedStep config request before rest
      → AccountedStep config request before (or_again o rest)
  or_again-Accounted before none rest f a = a
  or_again-Accounted before (some st) rest f a = f st refl

  pub if-Accounted :
      (before : List Datagram) (b : Bool) (s t : Step)
      → AccountedStep config request before s
      → AccountedStep config request before t
      → AccountedStep config request before (if b then s else t)
  if-Accounted before true s t a b = a
  if-Accounted before false s t a b = b

  pub on_timeout-Accounted :
      (now : ℕ) (st : Exchange)
      → (is_nack request.datagram ≡ false) × (is_ack request.datagram ≡ false)
      → Accounted config st
      → AccountedStep config request st.sent (on_timeout config request now st)
  unfolding on_timeout
  on_timeout-Accounted now st kind a =
      or_again-Accounted st.sent _ _ (λ st' e. retry_request-Accounted now st kind a e)
        (or_again-Accounted st.sent _ _ (λ st' e. ask_headers-Accounted now st a e)
          (or_again-Accounted st.sent _ _ (λ st' e. ask_body-Accounted now st a e)
            (if-Accounted st.sent (expired config now st) _ _ (give_up-Accounted st a) a)))

  pub tail_nack-Accounted :
      (seq : ℕ) (d : Datagram) (st : Exchange)
      → (is_nack d ≡ true) × (is_ack d ≡ false)
      → Accounted config st
      → Accounted config (tail_nack config seq d st)
  unfolding tail_nack
  tail_nack-Accounted seq d st kind a = elim (Bool-cases (allow_nack config st)) [
    | inl allow ↦
        elim (Bool-cases (
          ltb 0 (or_else st.accumulator.seq_total 0)
          && seq == or_else st.accumulator.seq_total 0 - 1
          && not (is_empty (missing_seqs st)))) [
            | inl e ↦
                subst (Accounted config) (ground arith) (send_nack-Accounted d st kind allow a)
            | inr e ↦ subst (Accounted config) (ground arith) a
          ]
    | inr refused ↦ rw refused a
  ]

  -- Of two states the guarded one may use its guard.
  pub choose-Accounted :
      (b : Bool) (s t : Exchange)
      → (b ≡ true → Accounted config s)
      → Accounted config t
      → Accounted config (if b then s else t)
  choose-Accounted true s t f a = f refl
  choose-Accounted false s t f a = a

  pub first_ack-Accounted :
      (st : Exchange) → Accounted config st → Accounted config (first_ack config request st)
  unfolding first_ack
  first_ack-Accounted st a =
      choose-Accounted (ltb st.acks_sent config.max_ack_rounds && _) _ _
        (λ h.
          answered (first_missing_seq st.accumulator)
            (&&-true (ltb st.acks_sent config.max_ack_rounds) _ h).0)
        a
    where
      answered :
          (first : Option ℕ)
          → ltb st.acks_sent config.max_ack_rounds ≡ true
          → Accounted config (elim first [
            | none ↦ st
            | some i ↦ send_ack (ack_v2 i request.message_id request.timestamp config.psk) st
          ])
      answered none h = a
      answered (some i) h = send_ack-Accounted _ st (refl, refl) (ltb→lt _ _ h) a

  pub first_ack-Extends :
      (st : Exchange) → Extends config request st.sent (first_ack config request st).sent
  unfolding first_ack send_ack send
  first_ack-Extends st =
      guarded (ltb st.acks_sent config.max_ack_rounds && _) (first_missing_seq st.accumulator)
    where
      guarded :
          (b : Bool) (first : Option ℕ)
          → Extends config request st.sent
              (if b
                then elim first [
                  | none ↦ st
                  | some i ↦ send_ack (ack_v2 i request.message_id request.timestamp config.psk) st
                ]
                else st).sent
      guarded false first = inl refl
      guarded true none = inl refl
      guarded true (some i) = inr (i, refl)
