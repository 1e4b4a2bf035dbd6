-- ===== src/Handler/Respond/Encrypted.antt =====
-- What an encrypted request gets from the v3 encoder.
use akari_proxy.Prelude.{
  ℕ, suc, ◌≡◌, true, none, some, List, [], ◌∷◌, arith, if◌then◌else◌, length, is_empty, All, Bytes,
  nat_eq, text_key,
}
use akari_proxy.Wire.{decode, has_flag, set_flag, flag_encrypt, flag_agg_tag}
use akari_proxy.Wire.Bodies.{decode-agg_encrypted}
use akari_proxy.Handler.State.{IncomingRequest, HttpResponse}
use akari_proxy.Handler.Respond.{v3_flags, v3_chunks, bodies, bodies_agg}
use akari_proxy.Handler.Respond.Shape.{v3_flags_fixed}

bodies_agg-lost :
    (idx : ℕ) (chunks : List Bytes) (total flags mid : ℕ) (psk tag : Bytes)
    → has_flag flags flag_agg_tag ≡ true
    → has_flag flags flag_encrypt ≡ true
    → All (λ d. decode d ≡ none) (bodies_agg idx chunks total flags mid psk tag)
unfolding bodies_agg
bodies_agg-lost idx [] total flags mid psk tag a e = tt
bodies_agg-lost idx (chunk ∷ chunks) total flags mid psk tag a e = (
  decode-agg_encrypted chunk idx total flags mid psk (if is_empty chunks then some tag else none) a
      e,
  bodies_agg-lost (suc idx) chunks total flags mid psk tag a e,
)

keeps_encryption :
    (request : IncomingRequest) (body_len : ℕ)
    → has_flag request.header.flags flag_encrypt ≡ true
    → has_flag (v3_flags request body_len) flag_encrypt ≡ true
unfolding v3_flags has_flag set_flag
keeps_encryption request body_len h = ground (arith, h)

-- In the answer to an encrypted v3 request the decoder refuses every body packet, since the encoder
-- asks for the aggregate tag together with encryption.
pub encrypted_bodies_lost :
    (hmac_sha256 : Bytes → Bytes → Bytes) (request : IncomingRequest) (response : HttpResponse)
    → has_flag request.header.flags flag_encrypt ≡ true
    → let chunks = v3_chunks request response.body in
      All
        (λ d. decode d ≡ none)
        (bodies hmac_sha256 request chunks
          (length chunks)
          (v3_flags request (length response.body)))
unfolding bodies
encrypted_bodies_lost hmac_sha256 request response h =
    rw ((v3_flags_fixed request (length response.body)).1) (
      bodies_agg-lost 0 (v3_chunks request response.body) (length (v3_chunks request response.body))
        (v3_flags request (length response.body)) request.header.message_id request.psk _
        (v3_flags_fixed request (length response.body)).1
        (keeps_encryption request (length response.body) h))
