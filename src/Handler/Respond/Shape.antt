-- ===== src/Handler/Respond/Shape.antt =====
-- The shape of a v3 response: one head packet, then the body packets.
use akari_proxy.Prelude.{
  ℕ, ◌-◌, ◌≤◌, ◌<◌, max, ◌≡◌, refl, Bool, true, false, List, [], ◌∷◌, arith, leb, if◌then◌else◌,
  length, concat, Bytes, nat_eq, text_key,
}
use akari_proxy.Prelude.Str.{codes}
use akari_proxy.Exceptions.{ok, raise}
use akari_proxy.Wire.{Datagram, resp_head_v3, has_flag, set_flag, flag_short_id, flag_agg_tag}
use akari_proxy.Handler.Sizes.{payload_cap, payload_cap_v3}
use akari_proxy.Handler.Split.{slices_one, split_body_lem}
use akari_proxy.Handler.Headers.{order_headers, shrink_headers}
use akari_proxy.Handler.Headers.Limited.{Takes, encode_header_block_limited_lem}
use akari_proxy.Handler.State.{IncomingRequest, HttpResponse}
use akari_proxy.Handler.Respond.{
  v3_flags, v3_chunks, header_chunks, bodies, too_large, header_cap, encode_success_datagrams_v3,
  success_datagrams,
}

-- A v3 response never asks for short ids, and always for the aggregate tag.
pub v3_flags_fixed :
    (request : IncomingRequest) (body_len : ℕ)
    → (has_flag (v3_flags request body_len) flag_short_id ≡ false)
      × (has_flag (v3_flags request body_len) flag_agg_tag ≡ true)
unfolding v3_flags has_flag set_flag
v3_flags_fixed request body_len = ground arith

header_chunks_one :
    (cap : ℕ) (block : Bytes) → length block ≤ cap → header_chunks cap block ≡ block ∷ []
unfolding header_chunks
header_chunks_one cap [] h = refl
header_chunks_one cap (b ∷ bs) h = slices_one cap b bs h

-- The header block is cut short enough for one head packet.
header_cap-le :
    (request : IncomingRequest) (body_len : ℕ)
    → leb 3 request.header.version ≡ true
    → header_cap request
      ≤ max
          (payload_cap request.buffer_size request.payload_max 3 (v3_flags request body_len) true
            - 8)
          1
unfolding header_cap has_flag
header_cap-le request body_len h = omega (
  arith,
  payload_cap_v3 request.buffer_size request.payload_max request.header.version 0 h refl,
  payload_cap_v3 request.buffer_size request.payload_max 3 (v3_flags request body_len) refl
      (v3_flags_fixed request body_len).0,
)

-- The number of body packets.
abbrev pub chunk_count : IncomingRequest → Bytes → ℕ
chunk_count request body = length (v3_chunks request body)

pub v3_chunks_pos : (request : IncomingRequest) (body : Bytes) → 0 < chunk_count request body
unfolding v3_chunks
v3_chunks_pos request body = omega arith

-- The body chunks of a v3 response make up the body.
pub concat-v3_chunks :
    (request : IncomingRequest) (body : Bytes) → concat (v3_chunks request body) ≡ body
unfolding v3_chunks
concat-v3_chunks request body =
    (split_body_lem body request.buffer_size 0 request.payload_max 3
      (v3_flags request (length body)) (has_flag (v3_flags request (length body)) flag_agg_tag)).0

module _ (hmac_sha256 : Bytes → Bytes → Bytes) (request : IncomingRequest)
    (response : HttpResponse) where
  -- A v3 answer on the header block `block`.
  abbrev pub v3_answer : Bytes → List Datagram
  v3_answer block =
      let flags = v3_flags request (length response.body) in
      let chunks = v3_chunks request response.body in
      resp_head_v3 response.status_code block (length response.body) 1 0 (length chunks) flags
        request.header.message_id request.psk
      ∷ bodies hmac_sha256 request chunks (length chunks) flags

  encode_v3_lem :
      (block : Bytes)
      → leb 3 request.header.version ≡ true
      → length block ≤ header_cap request
      → encode_success_datagrams_v3 hmac_sha256 request response block ≡ (
          if leb (chunk_count request response.body) 0xffff
          then ok (v3_answer block, chunk_count request response.body)
          else raise (
              too_large
                (codes "body requires")
                (chunk_count request response.body)
                (codes "65535")
                request))
  unfolding encode_success_datagrams_v3
  encode_v3_lem block h k =
      let cap_header =
        max
          (payload_cap request.buffer_size request.payload_max 3
              (v3_flags request (length response.body)) true
            - 8)
          1 in
      let one : header_chunks cap_header block ≡ block ∷ [] =
        header_chunks_one cap_header block
          (omega (arith, header_cap-le request (length response.body) h)) in
      ground (arith, one, v3_chunks_pos request response.body)

  -- From version 3 on a response is answered by one head packet, which carries the whole limited
  -- header block, and the body packets, if these are at most 65535; else `BodyTooLargeError` is raised.
  pub success_datagrams_v3 :
      (timestamp : ℕ)
      → leb 3 request.header.version ≡ true
      → (block : Bytes) × (truncated : Bool) × Takes
          (header_cap request)
          []
          (order_headers (shrink_headers 256 response.headers))
          block
          truncated
        × (success_datagrams hmac_sha256 request response timestamp ≡ (
            if leb (chunk_count request response.body) 0xffff
            then ok (v3_answer block)
            else raise (
                too_large
                  (codes "body requires")
                  (chunk_count request response.body)
                  (codes "65535")
                  request)))
  unfolding success_datagrams
  success_datagrams_v3 timestamp h =
      let (block, truncated, e, t) =
        encode_header_block_limited_lem (shrink_headers 256 response.headers)
          (header_cap request) in
      (block, truncated, t, ground (arith, e, encode_v3_lem block h t.fits))
