-- ===== src/Handler/Respond/Legacy.antt =====
-- What the answers before version 3 can raise.
use akari_proxy.Prelude.{
  ℕ, ◌+◌, ◌<◌, max, ◌≡◌, refl, ◌∙◌, ◌⊎◌, inl, inr, Bool, false, ◌&&◌, List, [], ◌∷◌, arith, leb,
  if◌then◌else◌, Bool-cases, length, Bytes, nat_eq, text_key,
}
use akari_proxy.Exceptions.{
  Exn, raise, ok≢raise, raise_inj, Result-cases, out_of_range, payload_too_large, payload_size,
}
use akari_proxy.Wire.{Datagram}
use akari_proxy.Handler.Sizes.{response_first_overhead}
use akari_proxy.Handler.Split.{split_body}
use akari_proxy.Handler.Headers.{shrink_headers}
use akari_proxy.Handler.Headers.Limited.{encode_header_block_limited_lem}
use akari_proxy.Handler.State.{IncomingRequest, HttpResponse}
use akari_proxy.Handler.Respond.{legacy_datagrams, payload_sizes, success_datagrams, header_cap}

-- What the native encoders refuse to write: OverflowError for a status or a number of chunks of more
-- than 16 bits or a body of 4 GiB, or ValueError for a payload of more than 65535 bytes.
abbrev pub Refused : HttpResponse → ℕ → Exn → Type 0
Refused response seq_total e =
    ((e ≡ out_of_range)
      × ((0xffff < response.status_code)
          ⊎ ((0xffff_ffff < length response.body) ⊎ (0xffff < seq_total))))
    ⊎ ((n : ℕ) × (0xffff < n) × (e ≡ payload_too_large n))

-- The number of chunks of an answer before version 3.
abbrev pub legacy_count : IncomingRequest → HttpResponse → Bytes → ℕ
legacy_count request response block = max 1 (
    1
    + length
        (split_body response.body request.buffer_size (length block) request.payload_max
          request.header.version 0 false).1)

payload_size-raises :
    (n : ℕ) {e : Exn}
    → payload_size n ≡ raise e
    → (n : ℕ) × (0xffff < n) × (e ≡ payload_too_large n)
payload_size-raises n h = elim (Bool-cases (leb n 0xffff)) [
  | inl f ↦ absurd (ok≢raise (rw f at h))
  | inr f ↦ (n, ground (arith, f), raise_inj Bool h (rw f refl))
]

payload_sizes-raise :
    (chunks : List Bytes) {e : Exn}
    → payload_sizes chunks ≡ raise e
    → (n : ℕ) × (0xffff < n) × (e ≡ payload_too_large n)
payload_sizes-raise [] h = absurd (ok≢raise h)
payload_sizes-raise (chunk ∷ chunks) h = elim (Bool-cases (leb (length chunk) 0xffff)) [
  | inl f ↦ payload_sizes-raise chunks (rw f at h)
  | inr f ↦ (length chunk, ground (arith, f), raise_inj Bool h (rw f refl))
]

outside :
    (status len total : ℕ)
    → (leb status 0xffff && (leb len 0xffff_ffff && leb total 0xffff)) ≡ false
    → (0xffff < status) ⊎ ((0xffff_ffff < len) ⊎ (0xffff < total))
outside status len total h = elim (Bool-cases (leb status 0xffff)) [
  | inr a ↦ inl (ground (arith, a))
  | inl a ↦ elim (Bool-cases (leb len 0xffff_ffff)) [
    | inr b ↦ inr (inl (ground (arith, b)))
    | inl b ↦ inr (inr (ground (arith, a, b, h)))
  ]
]

pub success_datagrams_legacy :
    (hmac_sha256 : Bytes → Bytes → Bytes) (request : IncomingRequest) (response : HttpResponse)
    (timestamp : ℕ)
    → leb 3 request.header.version ≡ false
    → (block : Bytes) × (success_datagrams hmac_sha256 request response timestamp
        ≡ legacy_datagrams request response block timestamp)
unfolding success_datagrams
success_datagrams_legacy hmac_sha256 request response timestamp h =
    let (block, truncated, e, t) =
      encode_header_block_limited_lem (shrink_headers 256 response.headers) (header_cap request) in
    (block, rw (e, h) refl)

pub legacy_datagrams-raises :
    (request : IncomingRequest) (response : HttpResponse) (block : Bytes) (timestamp : ℕ) {e : Exn}
    → legacy_datagrams request response block timestamp ≡ raise e
    → Refused response (legacy_count request response block) e
unfolding legacy_datagrams
legacy_datagrams-raises request response block timestamp h =
    let (first, tail) =
      split_body response.body request.buffer_size (length block) request.payload_max
        request.header.version 0 false in
    let block_len : ℕ = if leb 2 request.header.version then length block else 0 in
    elim (Bool-cases (
      leb response.status_code 0xffff
      && (leb (length response.body) 0xffff_ffff
          && leb (legacy_count request response block) 0xffff))) [
            | inr e ↦ inl (raise_inj (List Datagram) h (rw e refl), outside _ _ _ e)
            | inl e ↦
                elim (Bool-cases
                  (leb (response_first_overhead + (block_len + length first)) 0xffff)) [
                    | inr f ↦ inr (
                      response_first_overhead + (block_len + length first),
                      ground (arith, f),
                      raise_inj (List Datagram) h (rw (e, f) refl),
                    )
                    | inl f ↦ elim (Result-cases (payload_sizes tail)) [
                      | inl (b, g) ↦ absurd (ok≢raise (rw (e, f, g) at h))
                      | inr (x, g) ↦
                          let (n, big, same) = payload_sizes-raise tail g in
                          inr (n, big, raise_inj (List Datagram) h (rw (e, f, g) refl) ∙ same)
                    ]
                  ]
          ]
