-- ===== src/Client/Loop/Silence.antt =====
-- A server that falls silent does not keep the client waiting for ever.
use akari_proxy.Prelude.{
  ℕ, ap, zero, suc, ◌*◌, ◌⊎◌, inl, inr, Bool-cases, leb, ◌+◌, ◌-◌, ◌≤◌, ◌<◌, ◌≡◌, refl, sym, subst,
  true, ◌&&◌, Option, none, some, List, [], ◌∷◌, map, arith, ltb, if◌then◌else◌, ltb→lt, if-some,
  &&-true, length, is_empty, Bytes, nat_eq, text_key,
}
use akari_proxy.Exceptions.{ok}
use akari_proxy.Client.Config.{ClientConfig}
use akari_proxy.Client.Exchange.{
  Exchange, Request, ResponseOutcome, socket_timeout, Step, again, done, start, send, send_nack,
  allow_nack, give_up,
}
use akari_proxy.Client.Asking.{retry_request, ask_headers, ask_body, expired, on_timeout, or_again}
use akari_proxy.Client.Loop.{onward, step, run}

-- Each time is at least `t` behind the one before.
abbrev pub Spaced : ℕ → ℕ → List ℕ → Type 0
Spaced t last [] = Unit {0}
Spaced t last (now ∷ nows) = (last + t ≤ now) × Spaced t now nows

-- The sendings that the client has left.
abbrev pub rounds_left : ℕ → Exchange → ℕ
rounds_left rounds st = (rounds - st.nacks_sent) + st.req_retries_left

times_suc : (n g : ℕ) → suc n * g ≡ g + n * g
times_suc n g = ground arith

times_mono : (m n g : ℕ) → m < n → m * g + g ≤ n * g
times_mono m zero g h = absurd (omega (arith, h))
times_mono zero (suc n) g h = omega (arith, times_suc n g, times_suc 0 g)
times_mono (suc m) (suc n) g h =
    omega (arith, times_suc m g, times_suc n g, times_mono m n g (omega (arith, h)))

module _ (config : ClientConfig) (request : Request) (t rounds : ℕ)
    (limited : config.timeout ≡ some t) (bounded : config.max_nack_rounds ≡ some rounds) where
  -- An iteration gives up, uses up one of the sendings, or leaves all as it is before the timeout.
  abbrev Progress : ℕ → Exchange → Step → Type 0
  Progress now st (again st') =
      ((rounds_left rounds st' < rounds_left rounds st) × (st'.last_activity ≡ now))
      ⊎ ((now < st.last_activity + t) × (st' ≡ st))
  Progress now st (done outcome) = outcome.timed_out ≡ true

  or_again-Progress :
      (now : ℕ) (st : Exchange) (o : Option Exchange) (rest : Step)
      → ((st' : Exchange) → o ≡ some st' → Progress now st (again st'))
      → Progress now st rest
      → Progress now st (or_again o rest)
  or_again-Progress now st none rest f a = a
  or_again-Progress now st (some st') rest f a = f st' refl

  allowed : (st : Exchange) → allow_nack config st ≡ true → st.nacks_sent < rounds
  unfolding allow_nack
  allowed st h = ground (arith, bounded)

  retry_request-Progress :
      (now : ℕ) (st st' : Exchange)
      → retry_request request now st ≡ some st'
      → Progress now st (again st')
  unfolding retry_request send
  retry_request-Progress now st st' h =
      let (guard, e) = if-some (is_empty st.packets && ltb 0 st.req_retries_left) h in
      let l = ltb→lt 0 st.req_retries_left (&&-true (is_empty st.packets) _ guard).1 in
      subst (λ s. Progress now st (again s)) e (inl (omega arith, refl))

  ask_headers-Progress :
      (now : ℕ) (st st' : Exchange)
      → ask_headers config request now st ≡ some st'
      → Progress now st (again st')
  unfolding ask_headers send_nack send
  ask_headers-Progress now st st' h =
      let (guard, e) = if-some (allow_nack config st && _) h in
      let l = allowed st (&&-true (allow_nack config st) _ guard).0 in
      subst (λ s. Progress now st (again s)) e (inl (omega arith, refl))

  ask_body-Progress :
      (now : ℕ) (st st' : Exchange)
      → ask_body config request now st ≡ some st'
      → Progress now st (again st')
  unfolding ask_body send_nack send
  ask_body-Progress now st st' h =
      let (guard, e) = if-some (allow_nack config st && _) h in
      let l = allowed st (&&-true (allow_nack config st) _ guard).0 in
      subst (λ s. Progress now st (again s)) e (inl (omega arith, refl))

  give_up-Progress :
      (now : ℕ) (st : Exchange)
      → Progress now st
          (if expired config now st then done (give_up config request st) else again st)
  unfolding expired give_up
  give_up-Progress now st = elim (Bool-cases (leb t (now - st.last_activity))) [
    | inl late ↦ rw (limited, late) refl
    | inr early ↦ rw (limited, early) (inr (ground (arith, early), refl))
  ]

  on_timeout-Progress :
      (now : ℕ) (st : Exchange) → Progress now st (on_timeout config request now st)
  unfolding on_timeout
  on_timeout-Progress now st = or_again-Progress now st _ _ (retry_request-Progress now st) (
      or_again-Progress now st _ _ (ask_headers-Progress now st)
        (or_again-Progress now st _ _ (ask_body-Progress now st) (give_up-Progress now st)))

  module _ (hmac_sha256 : Bytes → Bytes → Bytes) (gap waits : ℕ)
      (enough : t ≤ suc waits * gap) where
    GivesUp : List ℕ → Step → Type 0
    GivesUp nows s =
        (outcome : ResponseOutcome) × (onward
            (run hmac_sha256 config request (map socket_timeout nows)) s
          ≡ ok (done outcome))
        × (outcome.timed_out ≡ true)

    -- Once more a time-out: then `left` of them without a sending pass the timeout.
    turn :
        (nows : List ℕ) (now last left : ℕ) (st : Exchange) (s : Step)
        → Progress now st s
        → last + gap ≤ now
        → st.last_activity + t ≤ last + suc left * gap
        → rounds_left rounds st * suc waits + suc left ≤ suc (length nows)
        → ((left : ℕ) (st' : Exchange)
            → st'.last_activity + t ≤ now + suc left * gap
            → rounds_left rounds st' * suc waits + suc left ≤ length nows
            → GivesUp nows (again st'))
        → GivesUp nows s
    unfolding GivesUp
    turn nows now last left st (done outcome) p near late l f = (outcome, refl, p)
    turn nows now last left st (again st') (inl (fewer, e)) near late l f =
        f waits st' (omega (arith, enough, e)) (omega (arith, l, times_mono _ _ (suc waits) fewer))
    turn nows now last zero st (again st') (inr (early, e)) near late l f =
        absurd (omega (arith, early, late, near, times_suc 0 gap))
    turn nows now last (suc left) st (again st') (inr (early, e)) near late l f =
        subst (λ x. GivesUp nows (again x)) (sym e)
          (f left st (omega (arith, late, near, times_suc (suc left) gap)) (omega (arith, l)))

    run-silence :
        (nows : List ℕ) (last left : ℕ) (st : Exchange)
        → Spaced gap last nows
        → st.last_activity + t ≤ last + suc left * gap
        → rounds_left rounds st * suc waits + suc left ≤ length nows
        → GivesUp nows (again st)
    unfolding run step GivesUp turn
    run-silence [] last left st h late l = absurd (omega (arith, l))
    run-silence (now ∷ nows) last left st h late l =
        turn nows now last left st (on_timeout config request now st) (on_timeout-Progress now st)
          h.0 late l (λ left' st' late' l'. run-silence nows now left' st' h.1 late' l')

    the_sendings :
        (began : ℕ)
        → rounds_left rounds (start config request began) ≡ rounds + config.initial_request_retries
    unfolding start
    the_sendings began = omega arith

    -- With a timeout and a limit on the NACK rounds, a client that hears nothing but time-outs of the
    -- socket, each at least some gap after the one before, ends with a timed-out outcome, once there are as
    -- many of them as fill the timeout with such gaps, for each retry and NACK round and once more.
    pub run_gives_up :
        (began : ℕ) (nows : List ℕ)
        → Spaced gap began nows
        → suc (rounds + config.initial_request_retries) * suc waits ≤ length nows
        → (outcome : ResponseOutcome) × (run hmac_sha256 config request
              (map socket_timeout nows)
              (start config request began)
            ≡ ok (done outcome))
          × (outcome.timed_out ≡ true)
    unfolding start GivesUp
    run_gives_up began nows h l =
        let product = ap (λ n. n * suc waits) (the_sendings began) in
        run-silence nows began waits (start config request began) h (omega (arith, enough)) (
          omega
            (arith, l, times_suc (rounds + config.initial_request_retries) (suc waits), product))
