-- ===== src/Handler/Respond/Fit.antt =====
-- Every datagram of a v3 response fits into the datagram size agreed on.
use akari_proxy.Prelude.{
  ℕ, suc, ◌+◌, ◌≤◌, ◌≡◌, refl, Bool, true, false, List, [], ◌∷◌, arith, leb, length, concat, All,
  length-take, All-mono, Bytes, nat_eq, text_key,
}
use akari_proxy.Wire.{Datagram, wire_len, has_flag, flag_short_id, flag_agg_tag}
use akari_proxy.Handler.Sizes.{
  max_datagram_size, payload_cap_v3, calc_payload_caps, udp_ip_overhead, safety_margin,
}
use akari_proxy.Handler.Split.{Fits, split_caps, split_body_lem}
use akari_proxy.Handler.State.{IncomingRequest, HttpResponse}
use akari_proxy.Handler.Respond.{v3_flags, v3_chunks, agg_tag_of, bodies_agg, bodies, header_cap}
use akari_proxy.Handler.Respond.Shape.{v3_flags_fixed, v3_answer}

abbrev pub request_max : IncomingRequest → ℕ
request_max request = max_datagram_size request.buffer_size request.payload_max

-- The datagram with the headers of IP and UDP and the margin.
abbrev pub FitsInto : ℕ → Datagram → Type 0
FitsInto size d = wire_len d + udp_ip_overhead + safety_margin ≤ size

-- A chunk leaves room for the aggregate tag.
abbrev Leaves : ℕ → Bytes → Type 0
Leaves size chunk = length chunk + 132 ≤ size

bodies_agg-FitsInto :
    (size idx : ℕ) (chunks : List Bytes) (total flags message_id : ℕ) (psk tag : Bytes)
    → has_flag flags flag_short_id ≡ false
    → length tag ≤ 16
    → All (Leaves size) chunks
    → All (FitsInto size) (bodies_agg idx chunks total flags message_id psk tag)
unfolding bodies_agg wire_len
bodies_agg-FitsInto size idx [] total flags message_id psk tag h k c = tt
bodies_agg-FitsInto size idx (chunk ∷ []) total flags message_id psk tag h k c = (ground arith, tt)
bodies_agg-FitsInto size idx (chunk ∷ next ∷ chunks) total flags message_id psk tag h k c = (
  ground arith,
  bodies_agg-FitsInto size (suc idx) (next ∷ chunks) total flags message_id psk tag h k c.1,
)

abbrev agg_flag : IncomingRequest → ℕ → Bool
agg_flag request body_len = has_flag (v3_flags request body_len) flag_agg_tag

split_caps_v3 :
    (request : IncomingRequest) (body_len : ℕ)
    → 133 ≤ request_max request
    → (let caps =
          split_caps request.buffer_size 0 request.payload_max 3
            (v3_flags request body_len)
            (agg_flag request body_len) in
        (caps.0 + 132 ≤ request_max request) × (caps.1 + 132 ≤ request_max request))
unfolding split_caps calc_payload_caps
split_caps_v3 request body_len h =
    let fixed = v3_flags_fixed request body_len in
    ground (
      arith,
      fixed.1,
      payload_cap_v3 request.buffer_size request.payload_max 3 (v3_flags request body_len) refl
          fixed.0,
    )

v3_chunks-Leaves :
    (request : IncomingRequest) (body : Bytes)
    → 133 ≤ request_max request
    → All (Leaves (request_max request)) (v3_chunks request body)
unfolding v3_chunks
v3_chunks-Leaves request body h =
    let flags = v3_flags request (length body) in
    let agg = agg_flag request (length body) in
    let caps = split_caps request.buffer_size 0 request.payload_max 3 flags agg in
    let (whole, first, tail) =
      split_body_lem body request.buffer_size 0 request.payload_max 3 flags agg in
    let (c0, c1) = split_caps_v3 request (length body) h in
    (
      omega arith,
      All-mono (Fits caps.1) (Leaves (request_max request)) _ (λ chunk f. omega arith) tail,
    )

module _ (hmac_sha256 : Bytes → Bytes → Bytes) where
  agg_tag_le : (psk body : Bytes) → length (agg_tag_of hmac_sha256 psk body) ≤ 16
  unfolding agg_tag_of
  agg_tag_le psk body = omega (arith, length-take 16 (hmac_sha256 psk body))

  -- Where the largest datagram has at least 133 bytes, each datagram of a v3 answer, with the headers
  -- of IP and UDP and the safety margin, fits into it.
  pub v3_answer-FitsInto :
      (request : IncomingRequest) (response : HttpResponse) (block : Bytes)
      → leb 3 request.header.version ≡ true
      → length block ≤ header_cap request
      → 133 ≤ request_max request
      → All (FitsInto (request_max request)) (v3_answer hmac_sha256 request response block)
  unfolding bodies
  v3_answer-FitsInto request response block v k h =
      let flags = v3_flags request (length response.body) in
      let fixed = v3_flags_fixed request (length response.body) in
      let chunks = v3_chunks request response.body in
      let tag = agg_tag_of hmac_sha256 request.psk (concat chunks) in
      (
        unfold wire_len header_cap in
            ground (
              arith,
              fixed.0,
              payload_cap_v3 request.buffer_size request.payload_max request.header.version 0 v
                  (unfold has_flag in refl),
            ),
        rw fixed.1 (
            bodies_agg-FitsInto (request_max request) 0 chunks (length chunks) flags
              request.header.message_id request.psk tag fixed.0
              (agg_tag_le request.psk (concat chunks)) (v3_chunks-Leaves request response.body h)),
      )
