-- ===== src/Client/Accumulator/Tag.antt =====
-- Only a v3 body packet brings an aggregate tag.
use akari_proxy.Prelude.{
  ℕ, ◌≡◌, ap, inl, inr, not, ◌||◌, Option, none, some, [], ◌∷◌, ◌==◌, Bool-cases, is_some, Bytes,
  nat_eq, text_key,
}
use akari_proxy.Exceptions.{ok, >>=-ok, ok_inj}
use akari_proxy.Wire.{Header}
use akari_proxy.Client.Headers.{decode_header_block}
use akari_proxy.Client.Accumulator.{
  ResponseAccumulator, header_complete, take_headers_v2, add_chunk_v2, assemble_headers,
  join_sorted,
}

take_headers_v2-agg_tag :
    (hdr : Option Bytes) (acc : ResponseAccumulator) {acc' : ResponseAccumulator}
    → take_headers_v2 hdr acc ≡ ok acc'
    → acc.agg_tag ≡ acc'.agg_tag
unfolding take_headers_v2
take_headers_v2-agg_tag none acc h = ap (λ a. a.agg_tag) (ok_inj h)
take_headers_v2-agg_tag (some []) acc h = ap (λ a. a.agg_tag) (ok_inj h)
take_headers_v2-agg_tag (some (b ∷ bs)) acc h = elim (Bool-cases (is_some acc.headers_bytes)) [
  | inl e ↦ ap (λ a. a.agg_tag) (ok_inj (rw e at h))
  | inr e ↦
      let (headers, _, k) =
        >>=-ok (decode_header_block (b ∷ bs))
          (λ headers. ok (record acc { headers_bytes = some (b ∷ bs); headers = some headers }))
          (rw e at h) in
      ap (λ a. a.agg_tag) (ok_inj k)
]

pub add_chunk_v2-agg_tag :
    (header : Header) (seq total : ℕ) (status len : Option ℕ) (hdr : Option Bytes) (chunk : Bytes)
    (acc : ResponseAccumulator) {acc' : ResponseAccumulator}
    → add_chunk_v2 header seq total status len hdr chunk acc ≡ ok acc'
    → acc.agg_tag ≡ acc'.agg_tag
unfolding add_chunk_v2
add_chunk_v2-agg_tag header seq total status len hdr chunk acc h =
    elim (Bool-cases (header.message_id == acc.message_id)) [
      | inl e ↦ take_headers_v2-agg_tag hdr _ (rw e at h)
      | inr e ↦ ap (λ a. a.agg_tag) (ok_inj (rw e at h))
    ]

pub assemble_headers-agg_tag :
    (acc : ResponseAccumulator) {acc' : ResponseAccumulator}
    → assemble_headers acc ≡ ok acc'
    → acc.agg_tag ≡ acc'.agg_tag
unfolding assemble_headers
assemble_headers-agg_tag acc h =
    elim (Bool-cases (is_some acc.headers_bytes || not (header_complete acc))) [
      | inl e ↦ ap (λ a. a.agg_tag) (ok_inj (rw e at h))
      | inr e ↦
          let (headers, _, k) =
            >>=-ok (decode_header_block (join_sorted acc.hdr_chunks))
              (λ headers. ok (record acc {
                headers_bytes = some (join_sorted acc.hdr_chunks);
                headers = some headers;
              }))
              (rw e at h) in
          ap (λ a. a.agg_tag) (ok_inj k)
    ]
