-- ===== src/Router/Proxy/Soundness.antt =====
-- Which outcomes the web proxy hands on as responses.
use akari_proxy.Prelude.{
  ◌≡◌, refl, ap, ◌∙◌, subst, ◌≢◌, inl, inr, Bool, true, false, not, ◌&&◌, ◌||◌, Option, none, some,
  [], ◌∷◌, Bool-cases, is_some, Text, nat_eq, text_key,
}
use akari_proxy.Exceptions.{Result, ok, raise}
use akari_proxy.Client.Exchange.{ResponseOutcome, ErrorPayload}
use akari_proxy.ContentFilter.{ContentFilterSettings, blocked, evaluate}
use akari_proxy.Router.Parameters.{normalize_user_input, is_http}
use akari_proxy.Router.Proxy.{
  RouteResult, responds, shapes, settle, answer_outcome, fetch_via_udp, wrap_failure,
  answer_fetched, proxy_target, proxy_normalized, execute_proxy,
}

-- An outcome with a whole body and nothing against it.
abbrev pub IsGood : ResponseOutcome → Type 0
IsGood outcome =
    (outcome.error ≡ none)
    × (outcome.timed_out ≡ false)
    × (outcome.complete ≡ true)
    × (is_some outcome.body ≡ true)

pub answer_outcome-good :
    (url : Text) (outcome : ResponseOutcome)
    → IsGood outcome
    → answer_outcome url outcome ≡ shapes url outcome
unfolding answer_outcome settle
answer_outcome-good url outcome (e, t, w, b) =
    ap
      (λ x.
        settle url outcome x outcome.timed_out (not outcome.complete || not (is_some outcome.body)))
      e
    ∙ ap (λ x. settle url outcome none x (not outcome.complete || not (is_some outcome.body))) t
    ∙ ap (λ x. settle url outcome none false (not x || not (is_some outcome.body))) w
    ∙ ap (λ x. settle url outcome none false (not x)) b

shapes_inj :
    {target target' : Text} {outcome outcome' : ResponseOutcome}
    → shapes target outcome ≡ shapes target' outcome'
    → (target ≡ target') × (outcome ≡ outcome')
shapes_inj h = (cc, cc)

responds≢shapes :
    {r : RouteResult} {target : Text} {outcome : ResponseOutcome}
    → responds r ≢ shapes target outcome
responds≢shapes h = cc

settle-shapes :
    (url : Text) (outcome : ResponseOutcome) (error : Option ErrorPayload)
    (timed_out missing : Bool) {target : Text} {outcome' : ResponseOutcome}
    → settle url outcome error timed_out missing ≡ shapes target outcome'
    → (url ≡ target)
      × (outcome ≡ outcome')
      × (error ≡ none)
      × (timed_out ≡ false)
      × (missing ≡ false)
unfolding settle
settle-shapes url outcome (some payload) timed_out missing h = absurd (responds≢shapes h)
settle-shapes url outcome none true missing h = absurd (responds≢shapes h)
settle-shapes url outcome none false true h = absurd (responds≢shapes h)
settle-shapes url outcome none false false h =
    let (same, also) = shapes_inj h in (same, also, refl, refl, refl)

whole : (a b : Bool) → (not a || not b) ≡ false → (a ≡ true) × (b ≡ true)
whole true true h = (refl, refl)
whole true false h = cc
whole false b h = cc

answer_outcome-shapes :
    (url : Text) (outcome : ResponseOutcome) {target : Text} {outcome' : ResponseOutcome}
    → answer_outcome url outcome ≡ shapes target outcome'
    → (url ≡ target) × (outcome ≡ outcome') × IsGood outcome
unfolding answer_outcome
answer_outcome-shapes url outcome h =
    let (same, also, e, t, m) =
      settle-shapes url outcome outcome.error outcome.timed_out
        (not outcome.complete || not (is_some outcome.body)) h in
    let (c, b) = whole outcome.complete (is_some outcome.body) m in (same, also, (e, t, c, b))

module _ (settings : ContentFilterSettings) (send_request : Text → Result ResponseOutcome)
    (skip_filter : Bool) (target : Text) (outcome : ResponseOutcome) where
  -- What stands behind a response that is handed on.
  abbrev pub Sound : Type 0
  Sound =
      (is_http target ≡ true)
      × (send_request target ≡ ok outcome)
      × ((not skip_filter && blocked (evaluate settings target)) ≡ false)
      × IsGood outcome

  wrapped :
      (url : Text) (r : Result ResponseOutcome)
      → answer_fetched url (wrap_failure r) ≡ shapes target outcome
      → (url ≡ target) × (r ≡ ok outcome) × IsGood outcome
  wrapped url (raise e) h = absurd (responds≢shapes h)
  wrapped url (ok o) h =
      let (same, also, good) = answer_outcome-shapes url o h in
      (same, ap ok also, subst IsGood also good)

  proxy_target-shapes :
      (url : Text)
      → proxy_target settings send_request url skip_filter ≡ shapes target outcome
      → Sound
  unfolding proxy_target fetch_via_udp
  proxy_target-shapes url h =
      elim (Bool-cases (not skip_filter && blocked (evaluate settings url))) [
        | inl stop ↦ absurd (responds≢shapes (rw stop at h))
        | inr pass ↦ elim (Bool-cases (is_http url)) [
          | inr bad ↦ absurd (responds≢shapes (rw (pass, bad) at h))
          | inl http ↦
              let (same, e, good) = wrapped url (send_request url) (rw (pass, http) at h) in
              (
                subst (λ u. is_http u ≡ true) same http,
                subst (λ u. send_request u ≡ ok outcome) same e,
                subst (λ u. (not skip_filter && blocked (evaluate settings u)) ≡ false) same pass,
                good,
              )
        ]
      ]

  -- If `_execute_proxy` hands an outcome on as the response of a target, then the target is an HTTP or
  -- HTTPS URL that the filter did not stop (or was told to skip), the outcome is what the client
  -- returned for that target, and it is complete, not timed out, without an error and with a body.
  pub execute_proxy-sound :
      (raw_url : Text)
      → execute_proxy settings send_request raw_url skip_filter ≡ shapes target outcome
      → Sound
  unfolding execute_proxy
  execute_proxy-sound [] h = absurd (responds≢shapes h)
  execute_proxy-sound (c ∷ raw_url) h = normalized (normalize_user_input (c ∷ raw_url)) h
    where
      normalized :
          (o : Option Text)
          → proxy_normalized settings send_request o skip_filter ≡ shapes target outcome
          → Sound
      normalized none h = absurd (responds≢shapes (unfold proxy_normalized in h))
      normalized (some []) h = absurd (responds≢shapes (unfold proxy_normalized in h))
      normalized (some (d ∷ url)) h = proxy_target-shapes (d ∷ url) (unfold proxy_normalized in h)
