-- ===== src/Client/Loop/Delivery/Packets.antt =====
-- The packets of a v3 answer, one by one, in the client's loop.
use akari_proxy.Prelude.{
  ℕ, suc, ◌%◌, ◌^◌, ◌≡◌, refl, ap, ◌∙◌, inl, inr, none, some, List, [], ◌∷◌, ◌++◌, map, append-nil,
  arith, if◌then◌else◌, Bool-cases, length, get_elem?, get_elem?-lt, Bytes, nat_eq, text_key,
}
use akari_proxy.Prelude.Dict.{get, put}
use akari_proxy.Prelude.Str.{codes}
use akari_proxy.Prelude.Sorted.{sorted}
use akari_proxy.Exceptions.{ok, raise, value_error}
use akari_proxy.Wire.{
  Datagram, Packet, resp_body, resp_head, resp_head_v3, decode, wire_len, has_flag, flag_short_id,
  flag_short_len,
}
use akari_proxy.Handler.Respond.Shape.{v3_flags_fixed, v3_answer, v3_chunks_pos}
use akari_proxy.Client.Accumulator.{
  add_head_v3, add_body_v3, header_complete, assemble_headers, join_sorted,
}
use akari_proxy.Client.Accumulator.Reassembly.{Holds-nil, Holds-put}
use akari_proxy.Client.Exchange.{Exchange, Event, received, again, start}
use akari_proxy.Client.Loop.{on_resp_body, on_head, on_payload, take_in, step, with_accumulator}
use akari_proxy.Client.Loop.Arrivals.{
  coming, arrival, flags, body_tag, body_datagram, wire_header, get_elem?-bodies,
  decode-body_datagram,
}
use akari_proxy.Client.Loop.Delivery.Gathering.{Scene, Gathered, whole}

module _ (scene : Scene) where
  abbrev pub answer : List Datagram
  answer = v3_answer scene.hmac_sha256 scene.request scene.response scene.block

  abbrev pub events : List (ℕ × ℕ) → List Event
  events order = map (arrival answer) order

  -- The state with body packet `i` added.
  abbrev pub with_body : ℕ → Bytes → ℕ → Exchange → Exchange
  with_body i chunk now st =
      let packet : Packet = record {
        header =
            wire_header scene.hmac_sha256 scene.request scene.response scene.plain
              (length (whole scene));
        payload =
            resp_body i (length (whole scene)) chunk
              (body_tag scene.hmac_sha256 scene.request scene.response scene.plain i);
      } in
      let st' =
        take_in scene.config
          (wire_len
            (body_datagram scene.hmac_sha256 scene.request scene.response scene.plain i chunk))
          packet now st in
      with_accumulator
        (add_body_v3 packet.header i (length (whole scene)) chunk
          (body_tag scene.hmac_sha256 scene.request scene.response scene.plain i) st'.accumulator)
        st'

  pub arrival-body :
      (i : ℕ) (chunk : Bytes) (now : ℕ)
      → get_elem? (whole scene) i ≡ some chunk
      → arrival answer (suc i, now)
        ≡ received
            (wire_len
              (body_datagram scene.hmac_sha256 scene.request scene.response scene.plain i chunk))
            (ok (record {
              header =
                  wire_header scene.hmac_sha256 scene.request scene.response scene.plain
                    (length (whole scene));
              payload =
                  resp_body i
                    (length (whole scene))
                    chunk
                    (body_tag scene.hmac_sha256 scene.request scene.response scene.plain i);
            }))
            now
  arrival-body i chunk now e =
      ap (coming now)
        (get_elem?-bodies scene.hmac_sha256 scene.request scene.response scene.plain i chunk e)
      ∙ ap
          (λ p.
            received
              (wire_len
                (body_datagram scene.hmac_sha256 scene.request scene.response scene.plain i chunk))
              (elim p [ none ↦ raise (value_error (codes "decode failed")) | some q ↦ ok q ]) now)
          (decode-body_datagram scene.hmac_sha256 scene.request scene.response scene.plain i chunk)

  pub step-body :
      (i : ℕ) (chunk : Bytes) (now : ℕ) (st : Exchange)
      → get_elem? (whole scene) i ≡ some chunk
      → step scene.hmac_sha256 scene.config scene.sent (arrival answer (suc i, now)) st
        ≡ ok (on_resp_body scene.hmac_sha256 scene.config scene.sent i (with_body i chunk now st))
  unfolding step on_payload
  step-body i chunk now st e =
      ap (λ event. step scene.hmac_sha256 scene.config scene.sent event st)
        (arrival-body i chunk now e)

  pub with_body-Gathered :
      (i : ℕ) (chunk : Bytes) (now : ℕ) (came : List ℕ) (st : Exchange)
      → get_elem? (whole scene) i ≡ some chunk
      → Gathered scene came st
      → Gathered scene (i ∷ came) (with_body i chunk now st)
  unfolding add_body_v3 take_in
  with_body-Gathered i chunk now came st e g = record {
    holds = Holds-put (whole scene) came st.accumulator.chunks i chunk g.holds e;
    total = ground (arith, v3_chunks_pos scene.request scene.response.body);
    status = g.status;
    block_read = g.block_read;
    headers_read = g.headers_read;
    last = λ m. ground (arith, g.last, get_elem?-lt (whole scene) i e);
    agg_mode = rw (g.agg_mode) refl;
    no_error = g.no_error;
  }

  -- The head packet, and the state with it added.
  abbrev pub head_packet : Packet
  head_packet =
      let len =
        if has_flag (flags scene.hmac_sha256 scene.request scene.response scene.plain)
          flag_short_len
        then length scene.response.body % 2 ^ 24
        else length scene.response.body in
      let mid =
        if has_flag (flags scene.hmac_sha256 scene.request scene.response scene.plain) flag_short_id
        then scene.request.header.message_id % 2 ^ 16
        else scene.request.header.message_id in
      record {
        header = record {
          version = 3;
          flags = flags scene.hmac_sha256 scene.request scene.response scene.plain;
          message_id = mid;
          seq_total = length (whole scene);
          timestamp = 0;
        };
        payload = resp_head scene.response.status_code len 1 0 (length (whole scene)) scene.block;
      }

  abbrev pub with_head : ℕ → ℕ → Exchange → Exchange
  with_head size now st =
      let st' = take_in scene.config size head_packet now st in
      let len =
        if has_flag (flags scene.hmac_sha256 scene.request scene.response scene.plain)
          flag_short_len
        then length scene.response.body % 2 ^ 24
        else length scene.response.body in
      with_accumulator
        (add_head_v3 scene.response.status_code len 1 0 (length (whole scene)) scene.block
          st'.accumulator)
        st'

  abbrev pub head_size : ℕ
  head_size = wire_len (
      resp_head_v3 scene.response.status_code scene.block (length scene.response.body) 1 0
        (length (whole scene)) (flags scene.hmac_sha256 scene.request scene.response scene.plain)
        scene.request.header.message_id scene.request.psk)

  pub step-head :
      (now : ℕ) (st : Exchange)
      → step scene.hmac_sha256 scene.config scene.sent (arrival answer (0, now)) st
        ≡ on_head (with_head head_size now st)
  unfolding step on_payload decode
  step-head now st = refl

  -- A head packet once more changes nothing of what is gathered.
  pub on_head_again :
      (st : Exchange) → st.accumulator.headers_bytes ≡ some scene.block → on_head st ≡ ok (again st)
  unfolding on_head assemble_headers
  on_head_again st e = elim (Bool-cases (header_complete st.accumulator)) [
    | inl c ↦ rw (c, e) refl
    | inr c ↦ rw c refl
  ]

  pub with_head-Gathered :
      (size now : ℕ) (came : List ℕ) (st : Exchange)
      → Gathered scene came st
      → Gathered scene came (with_head size now st)
  unfolding add_head_v3 take_in
  with_head-Gathered size now came st g = record {
    holds = g.holds;
    total = refl;
    status = refl;
    block_read = g.block_read;
    headers_read = g.headers_read;
    last = g.last;
    agg_mode = rw (g.agg_mode) refl;
    no_error = g.no_error;
  }

  pub first_head :
      (began now : ℕ)
      → (st : Exchange) × (step scene.hmac_sha256 scene.config scene.sent
            (arrival answer (0, now))
            (start scene.config scene.sent began)
          ≡ ok (again st))
        × Gathered scene [] st
  unfolding on_head assemble_headers add_head_v3 take_in start header_complete join_sorted sorted
      get put
  first_head began now = (
    record (with_head head_size now (start scene.config scene.sent began)) {
      accumulator =
          record (with_head head_size now (start scene.config scene.sent began)).accumulator {
            headers_bytes = some (scene.block ++ []);
            headers = some scene.headers;
          };
    },
    step-head now (start scene.config scene.sent began)
        ∙ rw (append-nil scene.block, scene.read) refl,
    record {
      holds = Holds-nil (whole scene);
      total = refl;
      status = refl;
      block_read = ap some (append-nil scene.block);
      headers_read = refl;
      last = λ e. cc;
      agg_mode =
          rw ((v3_flags_fixed scene.request (length scene.response.body)).1, scene.version) refl;
      no_error = refl;
    },
  )
