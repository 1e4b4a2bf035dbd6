-- ===== src/Recovery.antt =====
-- The client's NACK against the server's kept answer: udp_client.py and handler.py together.
pub mod Acks
use akari_proxy.Wire.{Packet, decode, nack_body_v3, has_flag}
use akari_proxy.Prelude.Decimal.{ℤ}
use akari_proxy.Server.{AkariUdpServer, request_of}
use akari_proxy.Client.Missing.{mark, mark_all, zeros, maximum}
use akari_proxy.Client.Missing.Bitmap.Marks.{length-zeros}
use akari_proxy.Prelude.{
  Option, ◌/◌, ◌%◌, lt→ltb, ℕ, zero, suc, ◌+◌, ◌≤◌, ◌<◌, ◌≡◌, refl, sym, ap, ◌∙◌, subst, inl, inr,
  Bool, not, some, List, [], ◌∷◌, map, arith, ltb, ==_self, Bool-cases, length, get_elem?, All,
  keep, keep_yes, keep_no, All-mono, range_from, range, Bytes, nat_eq, text_key,
}
use akari_proxy.Prelude.Dict.{get, put, get-put, get-keep}
use akari_proxy.Prelude.Sorted.{IncreasingFrom, IncreasingFrom-mono, range_from-Increasing}
use akari_proxy.Wire.{Datagram, nack_body}
use akari_proxy.Handler.State.{
  IncomingRequest, HttpResponse, State, Clock, remember, resp_cache_ttl, purge_resp_cache,
}
use akari_proxy.Handler.Respond.{bodies, bodies_agg, v3_flags, v3_chunks}
use akari_proxy.Handler.Respond.Shape.{v3_answer, v3_flags_fixed}
use akari_proxy.Handler.Nack.{handle_nack}
use akari_proxy.Handler.Nack.Resend.{handle_nack_body}
use akari_proxy.Client.Accumulator.{ResponseAccumulator}
use akari_proxy.Client.Missing.{lacks, missing_of, missing_seq_list, build_missing_bitmap_from_list}
use akari_proxy.Client.Missing.Bitmap.{bitmap_to_seq-build_missing_bitmap}

keep-Increasing :
    (p : ℕ → Bool) (lo : ℕ) (xs : List ℕ) → IncreasingFrom lo xs → IncreasingFrom lo (keep p xs)
keep-Increasing p lo [] h = tt
keep-Increasing p lo (x ∷ xs) h = elim (Bool-cases (p x)) [
  | inl e ↦
      subst (IncreasingFrom lo) (sym (keep_yes p x xs e)) (h.0, keep-Increasing p (suc x) xs h.1)
  | inr e ↦
      subst (IncreasingFrom lo) (sym (keep_no p x xs e))
        (keep-Increasing p lo xs (IncreasingFrom-mono lo (suc x) xs (omega (arith, h.0)) h.1))
]

All-keep : (p : ℕ → Bool) (n : ℕ) (xs : List ℕ) → All (λ x. x < n) xs → All (λ x. x < n) (keep p xs)
All-keep p n [] h = tt
All-keep p n (x ∷ xs) h = elim (Bool-cases (p x)) [
  | inl e ↦ subst (All (λ y. y < n)) (sym (keep_yes p x xs e)) (h.0, All-keep p n xs h.1)
  | inr e ↦ subst (All (λ y. y < n)) (sym (keep_no p x xs e)) (All-keep p n xs h.1)
]

All-range_from : (lo n : ℕ) → All (λ x. x < lo + n) (range_from lo n)
All-range_from lo zero = tt
All-range_from lo (suc n) = (
  omega arith,
  All-mono (λ x. x < suc lo + n) (λ x. x < lo + suc n) (range_from (suc lo) n) (λ x h. omega arith)
      (All-range_from (suc lo) n),
)

length-bodies_agg :
    (idx : ℕ) (chunks : List Bytes) (total flags mid : ℕ) (psk tag : Bytes)
    → length (bodies_agg idx chunks total flags mid psk tag) ≡ length chunks
unfolding bodies_agg
length-bodies_agg idx [] total flags mid psk tag = refl
length-bodies_agg idx (c ∷ chunks) total flags mid psk tag =
    ap suc (length-bodies_agg (suc idx) chunks total flags mid psk tag)

length-bodies :
    (hmac_sha256 : Bytes → Bytes → Bytes) (request : IncomingRequest) (response : HttpResponse)
    → let chunks = v3_chunks request response.body in
      length (
        bodies hmac_sha256 request chunks (length chunks) (v3_flags request (length response.body)))
      ≡ length chunks
unfolding bodies
length-bodies hmac_sha256 request response =
    rw ((v3_flags_fixed request (length response.body)).1) (
      length-bodies_agg 0 (v3_chunks request response.body)
        (length (v3_chunks request response.body)) (v3_flags request (length response.body))
        request.header.message_id request.psk _)

-- An answer that is kept is found as long as the purge finds it fresh.
pub remembered :
    (mid : ℕ) (datagrams : List Datagram) (clock : Clock) (s : State)
    → clock.at_purge ≤ clock.at_cache + resp_cache_ttl
    → get (remember mid datagrams clock s).resp_cache mid ≡ some (clock.at_cache, datagrams)
unfolding remember purge_resp_cache
remembered mid datagrams clock s h =
    get-keep (λ e. not (ltb (e.1.0 + resp_cache_ttl) clock.at_purge))
      (put s.resp_cache mid (clock.at_cache, datagrams)) mid
      (get-put s.resp_cache mid mid (clock.at_cache, datagrams) ∙ rw (==_self mid) refl)
      (ground arith)

pub missing_seq_list-Increasing :
    (acc : ResponseAccumulator) (total : ℕ)
    → acc.seq_total ≡ some total
    → IncreasingFrom 0 (missing_seq_list acc) × All (λ seq. seq < total) (missing_seq_list acc)
unfolding missing_seq_list missing_of
missing_seq_list-Increasing acc total e = rw e (
  keep-Increasing (lacks acc.chunks) 0 (range total) (range_from-Increasing 0 total),
  All-keep (lacks acc.chunks) total (range total) (
      All-mono (λ x. x < 0 + total) (λ x. x < total) (range total) (λ x h. omega arith)
        (All-range_from 0 total)),
)

length-mark : (bitmap : Bytes) (idx bit : ℕ) → length (mark bitmap idx bit) ≡ length bitmap
unfolding mark
length-mark [] idx bit = refl
length-mark (b ∷ bitmap) zero bit = refl
length-mark (b ∷ bitmap) (suc idx) bit = ap suc (length-mark bitmap idx bit)

length-mark_all :
    (bitmap : Bytes) (missing : List ℕ) → length (mark_all bitmap missing) ≡ length bitmap
unfolding mark_all
length-mark_all bitmap [] = refl
length-mark_all bitmap (seq ∷ missing) =
    length-mark_all (mark bitmap (seq / 8) (seq % 8)) missing
    ∙ length-mark bitmap (seq / 8) (seq % 8)

maximum-below :
    (missing : List ℕ) (n : ℕ) → 0 < n → All (λ seq. seq < n) missing → maximum missing < n
maximum-below [] n pos h = pos
maximum-below (seq ∷ missing) n pos h = omega (arith, h.0, maximum-below missing n pos h.1)

-- Sequence numbers below 2040 have their bits in 255 bytes.
bitmap_fits :
    (missing : List ℕ)
    → All (λ seq. seq < 2040) missing
    → length (build_missing_bitmap_from_list missing) < 256
unfolding build_missing_bitmap_from_list
bitmap_fits [] h = omega arith
bitmap_fits (seq ∷ missing) h =
    let size = maximum (seq ∷ missing) / 8 + 1 in
    omega (
      arith,
      length-mark_all (zeros size) (seq ∷ missing),
      length-zeros size,
      maximum-below (seq ∷ missing) 2040 (omega arith) h,
    )

nack_decodes :
    (bitmap : Bytes) (message_id : ℕ) (psk : Bytes)
    → length bitmap < 256
    → decode (nack_body_v3 bitmap message_id 0 psk)
      ≡ some (record {
        header = record {
          version = 3;
          flags = 0;
          message_id = message_id;
          seq_total = 1;
          timestamp = 0;
        };
        payload = nack_body bitmap;
      })
unfolding decode has_flag
nack_decodes bitmap message_id psk h = rw (lt→ltb _ _ h) refl

-- The server keeps a v3 answer of at most 2040 body packets; the client, which knows how many there are,
-- asks with a body NACK for those it lacks. The server reads that NACK and sends exactly these body
-- packets, in their order, while the kept answer is fresh.
pub nack_recovers :
    (hmac_sha256 : Bytes → Bytes → Bytes) (request : IncomingRequest) (response : HttpResponse)
    (block : Bytes) (clock : Clock) (s : State) (acc : ResponseAccumulator)
    (server : AkariUdpServer) (mtu : Option ℤ)
    → acc.seq_total ≡ some (length (v3_chunks request response.body))
    → length (v3_chunks request response.body) ≤ 2040
    → clock.at_purge ≤ clock.at_cache + resp_cache_ttl
    → let chunks = v3_chunks request response.body in
      let bitmap = build_missing_bitmap_from_list (missing_seq_list acc) in
      (packet : Packet) × (decode (nack_body_v3 bitmap request.header.message_id 0 request.psk)
        ≡ some packet)
      × (map some (
            handle_nack (request_of server mtu packet) (
              remember request.header.message_id
                (v3_answer hmac_sha256 request response block)
                clock
                s))
          ≡ map
              (get_elem? (
                bodies hmac_sha256 request chunks
                  (length chunks)
                  (v3_flags request (length response.body))))
              (missing_seq_list acc))
unfolding request_of
nack_recovers hmac_sha256 request response block clock s acc server mtu total few fresh =
    let chunks = v3_chunks request response.body in
    let missing = missing_seq_list-Increasing acc (length chunks) total in
    let bitmap = build_missing_bitmap_from_list (missing_seq_list acc) in
    let fits = bitmap_fits (missing_seq_list acc) (
      All-mono (λ x. x < length chunks) (λ x. x < 2040) _ (λ x l. omega (arith, few, l))
        missing.1) in
    let seqs = bitmap_to_seq-build_missing_bitmap (missing_seq_list acc) missing.0 in
    let all_bodies : List Datagram =
      bodies hmac_sha256 request chunks (length chunks) (v3_flags request (length response.body)) in
    (
      _,
      nack_decodes bitmap request.header.message_id request.psk fits,
      handle_nack_body _
            (remember request.header.message_id (v3_answer hmac_sha256 request response block) clock
              s)
            bitmap clock.at_cache _ all_bodies refl
            (remembered request.header.message_id (v3_answer hmac_sha256 request response block)
              clock s fresh)
            (rw (seqs, length-bodies hmac_sha256 request response) missing.1)
          ∙ ap (map (get_elem? all_bodies)) seqs,
    )
