-- ===== src/Recovery/Acks.antt =====
-- The client's ACK against the server's kept answer: udp_client.py and handler.py together.
use akari_proxy.Prelude.{
  ℕ, zero, suc, ◌+◌, ◌-◌, ◌≤◌, ◌<◌, ◌≡◌, refl, sym, ap, ◌∙◌, subst, some, List, [], ◌∷◌, arith,
  within, length, get_elem?, drop, All, All-mono, nat_eq, text_key,
}
use akari_proxy.Prelude.Dict.{get}
use akari_proxy.Prelude.Sorted.{IncreasingFrom, IncreasingFrom-mono}
use akari_proxy.Wire.{Datagram, ack}
use akari_proxy.Handler.State.{IncomingRequest, State, Clock, remember, resp_cache_ttl}
use akari_proxy.Handler.Nack.{handle_ack}
use akari_proxy.Client.Accumulator.{ResponseAccumulator}
use akari_proxy.Client.Missing.{missing_seq_list, first_missing_seq}
use akari_proxy.Client.Missing.First.{missing_seq_list-first_missing_seq}
use akari_proxy.Recovery.{remembered, missing_seq_list-Increasing}

All-from : (lo : ℕ) (xs : List ℕ) → IncreasingFrom lo xs → All (λ x. lo ≤ x) xs
All-from lo [] h = tt
All-from lo (x ∷ xs) h =
    (h.0, All-from lo xs (IncreasingFrom-mono lo (suc x) xs (omega (arith, h.0)) h.1))

get_elem?-drop :
    (ds : List Datagram) (n i : ℕ) → n ≤ i → get_elem? (drop n ds) (i - n) ≡ get_elem? ds i
get_elem?-drop ds zero i h = ap (get_elem? ds) (omega arith)
get_elem?-drop [] (suc n) i h = refl
get_elem?-drop (d ∷ ds) (suc n) zero h = absurd (omega arith)
get_elem?-drop (d ∷ ds) (suc n) (suc i) h =
    ap (get_elem? (drop n ds)) (omega arith) ∙ get_elem?-drop ds n i (omega arith)

handle_ack-drop :
    (request : IncomingRequest) (s : State) (first at : ℕ) (datagrams : List Datagram)
    → request.payload ≡ ack first
    → get s.resp_cache request.header.message_id ≡ some (at, datagrams)
    → first < length datagrams
    → handle_ack request s ≡ drop first datagrams
unfolding handle_ack
handle_ack-drop request s first at datagrams p c h = ground (arith, p, c)

-- The server keeps an answer of one datagram per sequence number; the client, which knows how many
-- there are, names in an ACK the first that it lacks. While the answer is fresh, what the server
-- sends from there on has every one that the client lacks, at its distance from the first.
pub ack_recovers :
    (request ack_request : IncomingRequest) (datagrams : List Datagram) (clock : Clock) (s : State)
    (acc : ResponseAccumulator) (first : ℕ)
    → acc.seq_total ≡ some (length datagrams)
    → first_missing_seq acc ≡ some first
    → ack_request.payload ≡ ack first
    → ack_request.header.message_id ≡ request.header.message_id
    → clock.at_purge ≤ clock.at_cache + resp_cache_ttl
    → All
        (λ seq.
          (first ≤ seq)
          × (get_elem?
                (handle_ack ack_request (remember request.header.message_id datagrams clock s))
                (seq - first)
              ≡ get_elem? datagrams seq))
        (missing_seq_list acc)
ack_recovers request ack_request datagrams clock s acc first total lost payload mid fresh =
    let (rest, e) = missing_seq_list-first_missing_seq acc (length datagrams) first total lost in
    let (sorted, within) = missing_seq_list-Increasing acc (length datagrams) total in
    let increasing : IncreasingFrom 0 (first ∷ rest) = subst (IncreasingFrom 0) e sorted in
    let bound : All (λ seq. seq < length datagrams) (first ∷ rest) =
      subst (All (λ seq. seq < length datagrams)) e within in
    let kept : State = remember request.header.message_id datagrams clock s in
    let found : get kept.resp_cache ack_request.header.message_id
        ≡ some (clock.at_cache, datagrams) =
      rw mid (remembered request.header.message_id datagrams clock s fresh) in
    let resent =
      handle_ack-drop ack_request kept first clock.at_cache datagrams payload found bound.0 in
    subst (All _) (sym e) (
      All-mono (λ seq. first ≤ seq) _ (first ∷ rest)
        (λ seq l.
          (l, ap (λ ds. get_elem? ds (seq - first)) resent ∙ get_elem?-drop datagrams first seq l))
        (
          omega arith,
          All-from first rest
              (IncreasingFrom-mono first (suc first) rest (omega arith) increasing.1),
        ))
