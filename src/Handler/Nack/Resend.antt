-- ===== src/Handler/Nack/Resend.antt =====
-- Which datagrams a NACK brings back.
use akari_proxy.Prelude.{
  ℕ, ◌<◌, ◌≡◌, refl, some, List, [], ◌∷◌, map, arith, length, get_elem?, All, get_elem?-some, Bytes,
  nat_eq, text_key,
}
use native.Mathlib.Numerals.{add-one}
use native.Mathlib.Nat.{add-zero}
use akari_proxy.Prelude.Dict.{get}
use akari_proxy.Wire.{Datagram, nack_body}
use akari_proxy.Handler.State.{IncomingRequest, State}
use akari_proxy.Handler.Nack.{bitmap_to_seq, pick, nack_offset, handle_nack}

-- Behind one head packet, number `seq + 1` of the answer is body packet `seq`.
pick_behind :
    (head : Datagram) (bodies : List Datagram) (seqs : List ℕ)
    → pick (head ∷ bodies) 1 seqs ≡ pick bodies 0 seqs
unfolding pick
pick_behind head bodies [] = refl
pick_behind head bodies (seq ∷ seqs) =
    ground (arith, pick_behind head bodies seqs, add-one seq, add-zero seq)

pick_every :
    (cached : List Datagram) (seqs : List ℕ)
    → All (λ s. s < length cached) seqs
    → map some (pick cached 0 seqs) ≡ map (get_elem? cached) seqs
unfolding pick
pick_every cached [] h = refl
pick_every cached (seq ∷ seqs) h =
    let (d, e) = get_elem?-some cached seq h.0 in
    ground (arith, e, pick_every cached seqs h.1, add-zero seq)

-- A body NACK on a kept answer that begins with one head packet.
pub handle_nack_body :
    (request : IncomingRequest) (s : State) (bitmap : Bytes) (at : ℕ) (head : Datagram)
    (bodies : List Datagram)
    → request.payload ≡ nack_body bitmap
    → get s.resp_cache request.header.message_id ≡ some (at, head ∷ bodies)
    → All (λ seq. seq < length bodies) (bitmap_to_seq bitmap)
    → map some (handle_nack request s) ≡ map (get_elem? bodies) (bitmap_to_seq bitmap)
unfolding handle_nack nack_offset
handle_nack_body request s bitmap at head bodies p c h =
    let seqs : List ℕ = bitmap_to_seq bitmap in
    ground (arith, p, c, pick_behind head bodies seqs, pick_every bodies seqs h)
