-- ===== src/Client/Loop/Authentic.antt =====
-- The body of an answer without error is the one that the aggregate tag was made for.
pub mod Origins
pub mod Packets
use akari_proxy.Prelude.{
  ℕ, ◌-◌, ◌≡◌, refl, subst, ◌≢◌, true, none, some, List, [], ◌∷◌, arith, leb, none≢some, take, any,
  any-append, Bytes, nat_eq, text_key,
}
use akari_proxy.Exceptions.{Result, ok, >>=-ok, ok_inj}
use akari_proxy.Wire.{
  Packet, Header, Payload, req, resp, ack, nack, nack_head, nack_body, resp_head, resp_head_cont,
  resp_body, error,
}
use akari_proxy.Client.Config.{ClientConfig}
use akari_proxy.Client.Accumulator.{complete, add_chunk_v2}
use akari_proxy.Client.Accumulator.Tag.{add_chunk_v2-agg_tag}
use akari_proxy.Client.Exchange.{
  Exchange, Request, ResponseOutcome, server_error, Event, connection_reset, socket_timeout,
  received, Step, again, done, start,
}
use akari_proxy.Client.Loop.{on_resp, on_payload, take_in, step, run, onward, with_accumulator}
use akari_proxy.Client.Loop.Authentic.Origins.{
  brings, flagged, tag_came, Traced, TracedStep, on_timeout-Traced,
}
use akari_proxy.Client.Loop.Authentic.Packets.{
  finish-Authentic, on_resp_body-Traced, on_resp-Traced, kept, on_head-Traced, with_body-Traced,
  with_head-Traced, with_head_cont-Traced,
}

module _ (hmac_sha256 : Bytes → Bytes → Bytes) (config : ClientConfig) (request : Request) where
  on_payload-Traced :
      (header : Header) (p : Payload) (st : Exchange) {r : Step}
      → ((t : Bytes) → brings t p ≡ true → tag_came t st.packets ≡ true)
      → Traced config st
      → on_payload hmac_sha256 config request header p st ≡ ok r
      → TracedStep hmac_sha256 config r
  unfolding on_payload
  on_payload-Traced header (resp seq total status len hdr chunk) st came a h =
      let (acc, k, e) =
        >>=-ok (add_chunk_v2 header seq total status len hdr chunk st.accumulator)
          (λ acc. ok (on_resp hmac_sha256 config request seq (with_accumulator acc st))) h in
      subst (TracedStep hmac_sha256 config) (ok_inj e) (
        on_resp-Traced hmac_sha256 config request seq (with_accumulator acc st) (
          kept hmac_sha256 config request acc st
            (add_chunk_v2-agg_tag header seq total status len hdr chunk st.accumulator k) a))
  on_payload-Traced header (resp_head status len chunks idx total hdr) st came a h =
      on_head-Traced hmac_sha256 config request _
        (with_head-Traced hmac_sha256 config request status len chunks idx total hdr st a) h
  on_payload-Traced header (resp_head_cont idx chunks hdr) st came a h =
      on_head-Traced hmac_sha256 config request _
        (with_head_cont-Traced hmac_sha256 config request idx chunks hdr st a) h
  on_payload-Traced header (resp_body seq total chunk tag) st came a h =
      subst (TracedStep hmac_sha256 config) (ok_inj h) (
        on_resp_body-Traced hmac_sha256 config request seq _
          (with_body-Traced hmac_sha256 config request header seq total chunk tag st came a))
  on_payload-Traced header (error code status message) st came a h =
      subst (TracedStep hmac_sha256 config) (ok_inj h) (
        finish-Authentic hmac_sha256 config request
          (record st { error_payload = some (server_error code status message) })
          (record { mode = a.mode; origin = a.origin }))
  on_payload-Traced header (req url) st came a h =
      subst (TracedStep hmac_sha256 config) (ok_inj h) a
  on_payload-Traced header (ack first) st came a h =
      subst (TracedStep hmac_sha256 config) (ok_inj h) a
  on_payload-Traced header (nack bitmap) st came a h =
      subst (TracedStep hmac_sha256 config) (ok_inj h) a
  on_payload-Traced header (nack_head bitmap) st came a h =
      subst (TracedStep hmac_sha256 config) (ok_inj h) a
  on_payload-Traced header (nack_body bitmap) st came a h =
      subst (TracedStep hmac_sha256 config) (ok_inj h) a

  take_in-Traced :
      (size : ℕ) (p : Packet) (now : ℕ) (st : Exchange)
      → Traced config st
      → Traced config (take_in config size p now st)
  unfolding take_in
  take_in-Traced size p now st a = record {
    mode = ground (arith, a.mode, any-append flagged st.packets (p ∷ []));
    origin = λ tag h.
        ground (arith, a.origin tag h, any-append (λ p. brings tag p.payload) st.packets (p ∷ []));
  }

  came_last :
      (size : ℕ) (p : Packet) (now : ℕ) (st : Exchange) (t : Bytes)
      → brings t p.payload ≡ true
      → tag_came t (take_in config size p now st).packets ≡ true
  unfolding take_in
  came_last size p now st t h =
      ground (arith, h, any-append (λ p. brings t p.payload) st.packets (p ∷ []))

  step-Traced :
      (event : Event) (st : Exchange) {r : Step}
      → Traced config st
      → step hmac_sha256 config request event st ≡ ok r
      → TracedStep hmac_sha256 config r
  unfolding step
  step-Traced connection_reset st a h = subst (TracedStep hmac_sha256 config) (ok_inj h) a
  step-Traced (socket_timeout now) st a h =
      subst (TracedStep hmac_sha256 config) (ok_inj h)
        (on_timeout-Traced hmac_sha256 config request now st a)
  step-Traced (received size packet now) st a h =
      let (p, _, e) =
        >>=-ok packet
          (λ p.
            on_payload hmac_sha256 config request p.header p.payload (take_in config size p now st))
          h in
      on_payload-Traced p.header p.payload (take_in config size p now st) (came_last size p now st)
        (take_in-Traced size p now st a) e

  onward-Traced :
      (next : Exchange → Result Step) (s : Step) {r : Step}
      → ((st : Exchange) → Traced config st → next st ≡ ok r → TracedStep hmac_sha256 config r)
      → TracedStep hmac_sha256 config s
      → onward next s ≡ ok r
      → TracedStep hmac_sha256 config r
  onward-Traced next (again st) f a h = f st a h
  onward-Traced next (done outcome) f a h = subst (TracedStep hmac_sha256 config) (ok_inj h) a

  run-Traced :
      (events : List Event) (st : Exchange) {r : Step}
      → Traced config st
      → run hmac_sha256 config request events st ≡ ok r
      → TracedStep hmac_sha256 config r
  unfolding run
  run-Traced [] st a h = subst (TracedStep hmac_sha256 config) (ok_inj h) a
  run-Traced (event ∷ events) st {r} a h =
      let (s, e, k) =
        >>=-ok (step hmac_sha256 config request event st)
          (onward (run hmac_sha256 config request events)) h in
      onward-Traced _ s (λ st' b k. run-Traced events st' b k) (step-Traced event st a e) k

  start-Traced : (now : ℕ) → Traced config (start config request now)
  unfolding start
  start-Traced now = record { mode = refl; origin = λ tag h. absurd (none≢some h) }

  -- A v3 client that ends complete and without an error, after a packet with the flag of the
  -- aggregate tag, returns a body whose tag under the client's key came in one of its packets.
  pub run_authenticates :
      (now : ℕ) (events : List Event) (outcome : ResponseOutcome)
      → run hmac_sha256 config request events (start config request now) ≡ ok (done outcome)
      → outcome.complete ≡ true
      → outcome.error ≡ none
      → leb 3 config.version ≡ true
      → any flagged outcome.packets ≡ true
      → (body : Bytes) × (outcome.body ≡ some body)
        × (tag_came (take 16 (hmac_sha256 config.psk body)) outcome.packets ≡ true)
  run_authenticates now events outcome h c e v f =
      let a =
        run-Traced events (start config request now) {r = done outcome} (start-Traced now) h in
      a.authentic c e v f
