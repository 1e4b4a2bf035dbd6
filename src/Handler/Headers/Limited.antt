-- ===== src/Handler/Headers/Limited.antt =====
-- The block that `_encode_header_block_limited` returns.
use akari_proxy.Prelude.{
  ℕ, ◌+◌, ◌≤◌, ◌<◌, ◌≡◌, refl, ap, Bool, true, false, [], ◌∷◌, ◌++◌, arith, ltb, length,
  append_assoc, append-nil, length-append, Bool-cases, ltb→lt, ltb-false→le, inl, inr, Text, Bytes,
  sym, ◌∙◌,
}
use akari_proxy.Exceptions.{ok}
use akari_proxy.Handler.Headers.{
  Headers, take_headers, order_headers, encode_header_block, encode_header_block_limited,
}
use akari_proxy.Handler.Headers.Block.{item_bytes, block_bytes, encode_header_block-block_bytes}

-- `block` encodes the first of the ordered headers, and none is left over unless it is truncated:
-- then the next one would have passed the limit.
pub record Takes (cap : ℕ) (start : Bytes) (headers : Headers) (block : Bytes) (truncated : Bool)
    : Type 0 where
  pub taken : Headers
  pub left : Headers
  pub splits : headers ≡ taken ++ left
  pub encodes : block ≡ start ++ block_bytes taken
  pub fits : length block ≤ cap
  pub complete : truncated ≡ false → left ≡ []
  pub stops :
      truncated ≡ true
      → (k : Text) × (v : Text) × (rest : Headers) × (left ≡ (k, v) ∷ rest)
        × (cap < length block + length (item_bytes k v))

module _ (cap : ℕ) (encoded : Bytes) (k v : Text) (headers : Headers) {trial : Bytes}
    (e : encode_header_block ((k, v) ∷ []) ≡ ok trial) where
  take_headers_over :
      ltb cap (length encoded + length trial) ≡ true
      → take_headers cap encoded ((k, v) ∷ headers) ≡ ok (encoded, true)
  unfolding take_headers
  take_headers_over over = ground arith

  take_headers_under :
      ltb cap (length encoded + length trial) ≡ false
      → take_headers cap encoded ((k, v) ∷ headers) ≡ take_headers cap (encoded ++ trial) headers
  unfolding take_headers
  take_headers_under under = ground arith

take_headers_lem :
    (cap : ℕ) (encoded : Bytes) (headers : Headers)
    → length encoded ≤ cap
    → (block : Bytes) × (truncated : Bool) × (take_headers cap encoded headers
        ≡ ok (block, truncated))
      × Takes cap encoded headers block truncated
take_headers_lem cap encoded [] h = (
  encoded,
  false,
  unfold take_headers in refl,
  record {
    taken = [];
    left = [];
    splits = refl;
    encodes = sym (append-nil encoded);
    fits = h;
    complete = λ _. refl;
    stops = λ e. cc;
  },
)
take_headers_lem cap encoded ((k, v) ∷ headers) h =
    let trial : Bytes = block_bytes ((k, v) ∷ []) in
    let e : encode_header_block ((k, v) ∷ []) ≡ ok trial =
      encode_header_block-block_bytes ((k, v) ∷ []) in
    let flat : trial ≡ item_bytes k v = append-nil (item_bytes k v) in
    elim (Bool-cases (ltb cap (length encoded + length trial))) [
      | inl over ↦ (
        encoded,
        true,
        take_headers_over cap encoded k v headers e over,
        record {
          taken = [];
          left = (k, v) ∷ headers;
          splits = refl;
          encodes = sym (append-nil encoded);
          fits = h;
          complete = λ e'. cc;
          stops = λ _. (
            k,
            v,
            headers,
            refl,
            omega (arith, ltb→lt cap (length encoded + length trial) over, ap length flat),
          );
        },
      )
      | inr under ↦
          let (block, truncated, eq, t) =
            take_headers_lem cap (encoded ++ trial) headers
              (omega (arith, length-append encoded trial, ltb-false→le cap _ under)) in
          (
            block,
            truncated,
            take_headers_under cap encoded k v headers e under ∙ eq,
            record {
              taken = (k, v) ∷ t.taken;
              left = t.left;
              splits = ap (◌∷◌ (k, v)) t.splits;
              encodes =
                  t.encodes
                  ∙ append_assoc encoded trial (block_bytes t.taken)
                  ∙ ap (λ (x : Bytes). encoded ++ (x ++ block_bytes t.taken)) flat;
              fits = t.fits;
              complete = t.complete;
              stops = t.stops;
            },
          )
    ]

-- `_encode_header_block_limited` always returns a block within its limit. The block encodes the
-- first of the headers in their order of priority; with the flag clear it encodes all of them, and
-- with the flag set one more would have passed the limit.
pub encode_header_block_limited_lem :
    (headers : Headers) (cap : ℕ)
    → (block : Bytes) × (truncated : Bool) × (encode_header_block_limited headers cap
        ≡ ok (block, truncated))
      × Takes cap [] (order_headers headers) block truncated
unfolding encode_header_block_limited
encode_header_block_limited_lem headers cap =
    take_headers_lem cap [] (order_headers headers) (omega arith)
