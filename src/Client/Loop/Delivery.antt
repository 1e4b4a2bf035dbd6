-- ===== src/Client/Loop/Delivery.antt =====
-- The client gets the response out of the datagrams of a v3 answer, in whatever order and however
-- often they come behind the head packet.
pub mod Gathering
pub mod Packets
pub mod Asking
use akari_proxy.Prelude.{
  ℕ, zero, suc, ◌-◌, ◌≤◌, ◌<◌, ◌≡◌, sym, ap, ◌∙◌, ◌≢◌, inl, inr, true, false, false≢true, ◌||◌,
  List, [], ◌∷◌, map, arith, leb, Bool-cases, length, All, get_elem?-some, Bytes, nat_eq, text_key,
}
use akari_proxy.Prelude.Sorted.{elem}
use akari_proxy.Exceptions.{ok, ◌>>=◌}
use akari_proxy.Wire.{Datagram, has_flag, flag_encrypt}
use akari_proxy.Handler.Headers.{Headers}
use akari_proxy.Handler.State.{IncomingRequest, HttpResponse}
use akari_proxy.Handler.Respond.Shape.{v3_answer}
use akari_proxy.Client.Headers.{decode_header_block}
use akari_proxy.Client.Config.{ClientConfig}
use akari_proxy.Client.Accumulator.{add_head_v3, complete, keys}
use akari_proxy.Client.Exchange.{Exchange, Request, ResponseOutcome, done, start}
use akari_proxy.Client.Asking.{tail_nack}
use akari_proxy.Client.Loop.{finish, onward, run}
use akari_proxy.Client.Loop.Arrivals.{coming_later, Delivered, arrival, flags, chunks}
use akari_proxy.Client.Loop.Delivery.Gathering.{
  Scene, Gathered, whole, complete_count, finish-Delivered, not_yet, all_complete,
  tail_nack-Gathered,
}
use akari_proxy.Client.Loop.Delivery.Packets.{
  events, with_body, step-body, with_body-Gathered, with_head, step-head, on_head_again,
  with_head-Gathered, first_head, head_size,
}
use akari_proxy.Client.Loop.Delivery.Asking.{
  body_nack, on_resp_body_full, on_resp_body_more, tail_nack-chunks,
}

module _ (scene : Scene) where
  gather :
      (order : List (ℕ × ℕ)) (came : List ℕ) (st : Exchange)
      → Gathered scene came st
      → complete st.accumulator ≡ false
      → All (λ x. x.0 ≤ length (whole scene)) order
      → ((i : ℕ) → i < length (whole scene) → (elem i came || coming_later (suc i) order) ≡ true)
      → (outcome : ResponseOutcome) × (run scene.hmac_sha256 scene.config scene.sent
            (events scene order)
            st
          ≡ ok (done outcome))
        × Delivered scene.response scene.headers outcome
  unfolding run add_head_v3
  gather [] came st g c h covered =
      absurd
        (false≢true (sym c ∙ all_complete scene came st g (λ i l. ground (arith, covered i l))))
  gather ((zero, now) ∷ order) came st g c h covered =
      let st' : Exchange = with_head scene (head_size scene) now st in
      let g' = with_head-Gathered scene (head_size scene) now came st g in
      let e = step-head scene now st ∙ on_head_again scene st' g'.block_read in
      let still = complete_count scene came st' g' ∙ sym (complete_count scene came st g) ∙ c in
      let (outcome, r, d) =
        gather order came st' g' still h.1 (λ i l. ground (arith, covered i l)) in
      (
        outcome,
        ap (λ s. s >>= onward (run scene.hmac_sha256 scene.config scene.sent (events scene order)))
              e
            ∙ r,
        d,
      )
  gather ((suc i, now) ∷ order) came st g c h covered =
      let (chunk, f) = get_elem?-some (whole scene) i (omega (arith, h.0)) in
      let st' : Exchange = with_body scene i chunk now st in
      let g' = with_body-Gathered scene i chunk now came st f g in
      let e = step-body scene i chunk now st f in
      elim (Bool-cases (complete st'.accumulator)) [
        | inl full ↦ (
          finish scene.hmac_sha256 scene.config scene.sent st',
          ap
              (λ s.
                s >>= onward (run scene.hmac_sha256 scene.config scene.sent (events scene order)))
              (e ∙ ap ok (on_resp_body_full scene i st' full)),
          finish-Delivered scene (i ∷ came) st' g' full,
        )
        | inr more ↦
            let st'' : Exchange = tail_nack scene.config i (body_nack scene st') st' in
            let g'' = tail_nack-Gathered scene (i ∷ came) st' i (body_nack scene st') g' in
            let still =
              complete_count scene (i ∷ came) st'' g''
              ∙ ap (λ d. leb (length (whole scene)) (length (keys d)))
                  (tail_nack-chunks scene st' i (body_nack scene st'))
              ∙ sym (complete_count scene (i ∷ came) st' g')
              ∙ more in
            let (outcome, r, d) =
              gather order (i ∷ came) st'' g'' still h.1 (λ j l. ground (arith, covered j l)) in
            (
              outcome,
              ap
                    (λ s.
                      s
                      >>= onward
                          (run scene.hmac_sha256 scene.config scene.sent (events scene order)))
                    (e ∙ ap ok (on_resp_body_more scene i st' more))
                  ∙ r,
              d,
            )
      ]

module _ (hmac_sha256 : Bytes → Bytes → Bytes) (request : IncomingRequest) (response : HttpResponse)
    (plain : has_flag request.header.flags flag_encrypt ≡ false) (block : Bytes) (headers : Headers)
    (read : decode_header_block block ≡ ok headers) (config : ClientConfig) (sent : Request)
    (version : leb 3 config.version ≡ true) (same_key : config.psk ≡ request.psk) where
  abbrev scene : Scene
  scene = record {
    hmac_sha256 = hmac_sha256;
    request = request;
    response = response;
    plain = plain;
    block = block;
    headers = headers;
    read = read;
    config = config;
    sent = sent;
    version = version;
    same_key = same_key;
  }

  abbrev pub chunk_total : ℕ
  chunk_total = length (chunks hmac_sha256 request response plain)

  abbrev pub sent_back : List Datagram
  sent_back = v3_answer hmac_sha256 request response block

  -- A client of version 3 with the server's key receives the datagrams of a plain v3 answer: the head
  -- packet, then the body packets in any order, each at least once, and any of the datagrams once more.
  -- It returns the response: its status, the headers of the head packet, its whole body, and no error.
  pub run_delivers :
      (began now : ℕ) (order : List (ℕ × ℕ))
      → All (λ x. x.0 ≤ chunk_total) order
      → ((i : ℕ) → i < chunk_total → coming_later (suc i) order ≡ true)
      → (outcome : ResponseOutcome) × (run hmac_sha256 config sent
            (map (arrival sent_back) ((0, now) ∷ order))
            (start config sent began)
          ≡ ok (done outcome))
        × Delivered response headers outcome
  unfolding run
  run_delivers began now order h covered =
      let (st, e, g) = first_head scene began now in
      let few : complete st.accumulator ≡ false = not_yet scene st g in
      let (outcome, r, d) = gather scene order [] st g few h covered in
      (
        outcome,
        ap (λ s. s >>= onward (run hmac_sha256 config sent (map (arrival sent_back) order))) e ∙ r,
        d,
      )
