-- ===== src/Client/Loop/Authentic/Packets.antt =====
-- What the client makes of each kind of packet keeps track of the aggregate tag.
use akari_proxy.Prelude.{
  ℕ, ◌≡◌, refl, sym, ap, ◌∙◌, subst, inl, inr, true, ◌&&◌, Option, none, some, leb, if◌then◌else◌,
  Bool-cases, some_inj, none≢some, take, Bytes, text_eq, text_eq_iff, text_eq_self, nat_eq,
  text_key,
}
use akari_proxy.Prelude.Str.{codes}
use akari_proxy.Exceptions.{ok, >>=-ok, ok_inj}
use akari_proxy.Wire.{Header, resp_body}
use akari_proxy.Client.Config.{ClientConfig}
use akari_proxy.Client.Accumulator.{
  ResponseAccumulator, complete, header_complete, add_head_v3, add_head_cont_v3, add_body_v3,
  assemble_headers, assembled_body,
}
use akari_proxy.Client.Accumulator.Tag.{assemble_headers-agg_tag}
use akari_proxy.Client.Exchange.{Exchange, Request, client_error, Step, again}
use akari_proxy.Client.Asking.{first_ack}
use akari_proxy.Client.Loop.{tag_error, finish, on_resp, on_resp_body, on_head, with_accumulator}
use akari_proxy.Client.Loop.Authentic.Origins.{
  brings, tag_came, Traced, Authentic, TracedStep, if-Traced, choose-Traced, tail_nack-Traced,
  first_ack-Traced,
}

module _ (hmac_sha256 : Bytes → Bytes → Bytes) (config : ClientConfig) (request : Request) where
  -- The check of the tag is passed by the tag of the body alone.
  tag_passed :
      (st : Exchange)
      → (st.agg_mode && complete st.accumulator) ≡ true
      → tag_error hmac_sha256 config st ≡ none
      → st.accumulator.agg_tag
        ≡ some (take 16 (hmac_sha256 config.psk (assembled_body st.accumulator)))
  unfolding tag_error
  tag_passed st c e = passed st.accumulator.agg_tag (rw c at e)
    where
      made : Bytes
      made = take 16 (hmac_sha256 config.psk (assembled_body st.accumulator))

      passed :
          (tag : Option Bytes)
          → elim tag [
            | none ↦ some (client_error (codes "aggregate tag missing"))
            | some t ↦
                if text_eq made t
                then st.error_payload
                else some (client_error (codes "aggregate tag mismatch"))
          ]
            ≡ none
          → tag ≡ some made
      passed none e = cc
      passed (some t) e = elim (Bool-cases (text_eq made t)) [
        | inl same ↦ ap some (sym ((text_eq_iff made t).0 same))
        | inr other ↦ absurd (none≢some (sym (rw other at e)))
      ]

  pub finish-Authentic :
      (st : Exchange)
      → Traced config st
      → Authentic hmac_sha256 config (finish hmac_sha256 config request st)
  unfolding finish
  finish-Authentic st a = record {
    authentic = λ c e v f.
        let tag_mode : (st.agg_mode && complete st.accumulator) ≡ true =
          rw (a.mode, f, v, c) refl in
        (assembled_body st.accumulator, rw c refl, a.origin _ (tag_passed st tag_mode e));
  }

  pub on_resp_body-Traced :
      (seq : ℕ) (st : Exchange)
      → Traced config st
      → TracedStep hmac_sha256 config (on_resp_body hmac_sha256 config request seq st)
  unfolding on_resp_body
  on_resp_body-Traced seq st a =
      if-Traced hmac_sha256 config request (complete st.accumulator) _ _ (finish-Authentic st a)
        (tail_nack-Traced hmac_sha256 config request seq _ st a)

  pub on_resp-Traced :
      (seq : ℕ) (st : Exchange)
      → Traced config st
      → TracedStep hmac_sha256 config (on_resp hmac_sha256 config request seq st)
  unfolding on_resp
  on_resp-Traced seq st a =
      let b = first_ack-Traced hmac_sha256 config request st a in
      let st' = first_ack config request st in
      if-Traced hmac_sha256 config request (complete st'.accumulator) _ _ (finish-Authentic st' b) (
        choose-Traced hmac_sha256 config request (leb 2 config.version) _ _
          (tail_nack-Traced hmac_sha256 config request seq _ st' b) b)

  -- An accumulator with the same tag.
  pub kept :
      (acc : ResponseAccumulator) (st : Exchange)
      → st.accumulator.agg_tag ≡ acc.agg_tag
      → Traced config st
      → Traced config (with_accumulator acc st)
  kept acc st e a = record { mode = a.mode; origin = λ tag h. a.origin tag (e ∙ h) }

  pub on_head-Traced :
      (st : Exchange) {r : Step}
      → Traced config st
      → on_head st ≡ ok r
      → TracedStep hmac_sha256 config r
  unfolding on_head
  on_head-Traced st a h = elim (Bool-cases (header_complete st.accumulator)) [
    | inl c ↦
        let (acc, k, e) =
          >>=-ok (assemble_headers st.accumulator)
            (λ acc. ok (again (record st { accumulator = acc }))) (rw c at h) in
        subst (TracedStep hmac_sha256 config) (ok_inj e)
          (kept acc st (assemble_headers-agg_tag st.accumulator k) a)
    | inr c ↦ subst (TracedStep hmac_sha256 config) (ok_inj (rw c at h)) a
  ]

  -- A body packet that is among those that came.
  pub with_body-Traced :
      (header : Header) (seq total : ℕ) (chunk : Bytes) (tag : Option Bytes) (st : Exchange)
      → ((t : Bytes)
          → brings t (resp_body seq total chunk tag) ≡ true
          → tag_came t st.packets ≡ true)
      → Traced config st
      → Traced config (with_accumulator (add_body_v3 header seq total chunk tag st.accumulator) st)
  unfolding add_body_v3 brings
  with_body-Traced header seq total chunk none st came a = record {
    mode = a.mode;
    origin = a.origin;
  }
  with_body-Traced header seq total chunk (some tag) st came a = record {
    mode = a.mode;
    origin = λ t h. came t (ap (λ x. text_eq x t) (some_inj h) ∙ text_eq_self t);
  }

  pub with_head-Traced :
      (status len chunks idx total : ℕ) (hdr : Bytes) (st : Exchange)
      → Traced config st
      → Traced config
          (with_accumulator (add_head_v3 status len chunks idx total hdr st.accumulator) st)
  unfolding add_head_v3
  with_head-Traced status len chunks idx total hdr st a = kept _ st refl a

  pub with_head_cont-Traced :
      (idx chunks : ℕ) (hdr : Bytes) (st : Exchange)
      → Traced config st
      → Traced config (with_accumulator (add_head_cont_v3 idx chunks hdr st.accumulator) st)
  unfolding add_head_cont_v3
  with_head_cont-Traced idx chunks hdr st a = kept _ st refl a
