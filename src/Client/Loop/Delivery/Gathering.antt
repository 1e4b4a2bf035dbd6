-- ===== src/Client/Loop/Delivery/Gathering.antt =====
-- What the client has gathered of a v3 answer, and what follows once it is whole.
use akari_proxy.Prelude.{
  ℕ, ◌-◌, ◌<◌, ◌≡◌, refl, sym, ap, ◌∙◌, inl, inr, Bool, true, false, false≢true, ◌&&◌, none, some,
  List, [], arith, leb, if◌then◌else◌, le→leb, leb→le, Bool-cases, length, take, length-range_from,
  Bytes, text_eq_self, nat_eq, text_key,
}
use akari_proxy.Prelude.Dict.{Dict}
use akari_proxy.Prelude.Sorted.{elem, elem-range_from, elem-sorted, length-sorted}
use akari_proxy.Exceptions.{ok}
use akari_proxy.Wire.{Datagram, has_flag, flag_encrypt}
use akari_proxy.Handler.Headers.{Headers}
use akari_proxy.Handler.State.{IncomingRequest, HttpResponse}
use akari_proxy.Handler.Respond.{agg_tag_of}
use akari_proxy.Handler.Respond.Shape.{concat-v3_chunks, v3_chunks_pos}
use akari_proxy.Client.Headers.{decode_header_block}
use akari_proxy.Client.Config.{ClientConfig}
use akari_proxy.Client.Accumulator.{complete, keys, assembled_body}
use akari_proxy.Client.Accumulator.Reassembly.{
  Holds, elem-keys-came, keys_full, keys_all, join_sorted_lem, length-keys,
}
use akari_proxy.Client.Exchange.{Exchange, Request, send, send_nack, allow_nack}
use akari_proxy.Client.Asking.{tail_nack}
use akari_proxy.Client.Loop.{tag_error, finish}
use akari_proxy.Client.Loop.Arrivals.{Delivered, chunks, tag}

-- The parameters of an exchange: a plain v3 answer with the header block `block`, and a client of version
-- 3 with the server's key.
pub record Scene : Type 0 where
  pub hmac_sha256 : Bytes → Bytes → Bytes
  pub request : IncomingRequest
  pub response : HttpResponse
  pub plain : has_flag request.header.flags flag_encrypt ≡ false
  pub block : Bytes
  pub headers : Headers
  pub read : decode_header_block block ≡ ok headers
  pub config : ClientConfig
  pub sent : Request
  pub version : leb 3 config.version ≡ true
  pub same_key : config.psk ≡ request.psk

module _ (scene : Scene) where
  abbrev pub whole : List Bytes
  whole = chunks scene.hmac_sha256 scene.request scene.response scene.plain

  abbrev pub whole_tag : Bytes
  whole_tag = tag scene.hmac_sha256 scene.request scene.response scene.plain

  -- What the client has gathered from the head and the body packets that `came` numbers.
  pub record Gathered (came : List ℕ) (st : Exchange) : Type 0 where
    pub holds : Holds whole came st.accumulator.chunks
    pub total : st.accumulator.seq_total ≡ some (length whole)
    pub status : st.accumulator.status_code ≡ some scene.response.status_code
    pub block_read : st.accumulator.headers_bytes ≡ some scene.block
    pub headers_read : st.accumulator.headers ≡ some scene.headers
    pub last : elem (length whole - 1) came ≡ true → st.accumulator.agg_tag ≡ some whole_tag
    pub agg_mode : st.agg_mode ≡ true
    pub no_error : st.error_payload ≡ none

  pub complete_count :
      (came : List ℕ) (st : Exchange)
      → Gathered came st
      → complete st.accumulator ≡ leb (length whole) (length (keys st.accumulator.chunks))
  unfolding complete
  complete_count came st g = rw (g.total, length-keys st.accumulator.chunks) refl

  assembled :
      (came : List ℕ) (st : Exchange)
      → Gathered came st
      → complete st.accumulator ≡ true
      → assembled_body st.accumulator ≡ scene.response.body
  unfolding assembled_body
  assembled came st g c =
      let full =
        keys_full whole came st.accumulator.chunks g.holds
          (leb→le _ _ (sym (complete_count came st g) ∙ c)) in
      join_sorted_lem whole came st.accumulator.chunks g.holds full
      ∙ concat-v3_chunks scene.request scene.response.body

  last_came :
      (came : List ℕ) (st : Exchange)
      → Gathered came st
      → complete st.accumulator ≡ true
      → elem (length whole - 1) came ≡ true
  last_came came st g c =
      let d : Dict ℕ Bytes = st.accumulator.chunks in
      let full = keys_full whole came d g.holds (leb→le _ _ (sym (complete_count came st g) ∙ c)) in
      ground (
        arith,
        ap (elem (length whole - 1)) full,
        elem-range_from (length whole - 1) 0 (length whole),
        elem-sorted (length whole - 1) (keys d),
        elem-keys-came whole came d g.holds (length whole - 1),
        v3_chunks_pos scene.request scene.response.body,
      )

  pub finish-Delivered :
      (came : List ℕ) (st : Exchange)
      → Gathered came st
      → complete st.accumulator ≡ true
      → Delivered scene.response scene.headers (finish scene.hmac_sha256 scene.config scene.sent st)
  unfolding finish tag_error agg_tag_of
  finish-Delivered came st g c = record {
    complete = c;
    body = rw c (ap some (assembled came st g c));
    status = g.status;
    headers_read = g.headers_read;
    no_error = tag_checked;
    in_time = refl;
  }
    where
      tag_checked : tag_error scene.hmac_sha256 scene.config st ≡ none
      tag_checked =
          rw
            (
              g.agg_mode,
              c,
              g.last (last_came came st g c),
              assembled came st g c,
              scene.same_key,
              concat-v3_chunks scene.request scene.response.body,
              text_eq_self (take 16 (scene.hmac_sha256 scene.request.psk scene.response.body)),
            )
            g.no_error

  pub not_yet : (st : Exchange) → Gathered [] st → complete st.accumulator ≡ false
  not_yet st g = elim (Bool-cases (complete st.accumulator)) [
    | inl c ↦ absurd (false≢true (last_came [] st g c))
    | inr c ↦ c
  ]

  -- All the body packets that came make the scene.response complete.
  pub all_complete :
      (came : List ℕ) (st : Exchange)
      → Gathered came st
      → ((i : ℕ) → i < length whole → elem i came ≡ true)
      → complete st.accumulator ≡ true
  all_complete came st g all_came =
      let d : Dict ℕ Bytes = st.accumulator.chunks in
      complete_count came st g
      ∙ le→leb _ _ (
          omega (
            arith,
            length-sorted (keys d),
            ap length (keys_all whole came d g.holds all_came),
            length-range_from 0 (length whole),
          ))

  choose-Gathered :
      (came : List ℕ) (b : Bool) (s t : Exchange)
      → Gathered came s
      → Gathered came t
      → Gathered came (if b then s else t)
  choose-Gathered came true s t g h = g
  choose-Gathered came false s t g h = h

  pub tail_nack-Gathered :
      (came : List ℕ) (st : Exchange) (seq : ℕ) (d : Datagram)
      → Gathered came st
      → Gathered came (tail_nack scene.config seq d st)
  unfolding tail_nack send_nack send
  tail_nack-Gathered came st seq d g =
      choose-Gathered came (allow_nack scene.config st && _) (send_nack d st) st
        (record {
          holds = g.holds;
          total = g.total;
          status = g.status;
          block_read = g.block_read;
          headers_read = g.headers_read;
          last = g.last;
          agg_mode = g.agg_mode;
          no_error = g.no_error;
        })
        g
