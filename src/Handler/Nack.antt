-- ===== src/Handler/Nack.antt =====
-- `_handle_nack`, `_bitmap_to_seq` and `_handle_ack`: resending from the kept answers.
pub mod Resend
use akari_proxy.Prelude.{
  ℕ, suc, ◌+◌, ◌*◌, ◌/◌, ◌%◌, ◌^◌, Bool, Option, none, some, List, [], ◌∷◌, ◌++◌, leb, ◌==◌,
  if◌then◌else◌, length, get_elem?, drop, range, Bytes, nat_eq, text_key,
}
use akari_proxy.Prelude.Dict.{get}
use akari_proxy.Wire.{Datagram, Payload, ack, nack, nack_head, nack_body}
use akari_proxy.Handler.State.{IncomingRequest, State}

-- `byte & (1 << bit)`
abbrev pub has_bit : ℕ → ℕ → Bool
has_bit byte bit = byte / 2 ^ bit % 2 == 1

-- The inner loop, over the bits left.
unfoldable pub byte_seqs : ℕ → ℕ → List ℕ → List ℕ
byte_seqs idx byte [] = []
byte_seqs idx byte (bit ∷ bits) =
    let rest = byte_seqs idx byte bits in if has_bit byte bit then (idx * 8 + bit) ∷ rest else rest

unfoldable pub bitmap_seqs : ℕ → Bytes → List ℕ
bitmap_seqs idx [] = []
bitmap_seqs idx (byte ∷ bitmap) = byte_seqs idx byte (range 8) ++ bitmap_seqs (suc idx) bitmap

unfoldable pub bitmap_to_seq : Bytes → List ℕ
unfolding bitmap_seqs
bitmap_to_seq bitmap = bitmap_seqs 0 bitmap

-- `payload.get("bitmap")` where it is a bytes object
abbrev pub bitmap_of : Payload → Option Bytes
bitmap_of (nack bitmap) = some bitmap
bitmap_of (nack_head bitmap) = some bitmap
bitmap_of (nack_body bitmap) = some bitmap
bitmap_of _ = none

-- A body NACK counts the body packets, which stand behind one head packet in the kept answer.
unfoldable pub nack_offset : Payload → ℕ
nack_offset (nack_body bitmap) = 1
nack_offset _ = 0

unfoldable pub pick : List Datagram → ℕ → List ℕ → List Datagram
pick cached offset [] = []
pick cached offset (seq ∷ seqs) = elim (get_elem? cached (seq + offset)) [
  | none ↦ pick cached offset seqs
  | some d ↦ d ∷ pick cached offset seqs
]

unfoldable pub handle_nack : IncomingRequest → State → List Datagram
handle_nack request s = elim (get s.resp_cache request.header.message_id) [
  | none ↦ []
  | some (ts, cached) ↦ elim (bitmap_of request.payload) [
    | none ↦ []
    | some bitmap ↦ pick cached (nack_offset request.payload) (bitmap_to_seq bitmap)
  ]
]

-- `payload.get("first_lost_seq")` where it is a number
abbrev pub first_lost_of : Payload → Option ℕ
first_lost_of (ack first_lost_seq) = some first_lost_seq
first_lost_of _ = none

unfoldable pub handle_ack : IncomingRequest → State → List Datagram
handle_ack request s = elim (first_lost_of request.payload) [
  | none ↦ []
  | some first_lost ↦ elim (get s.resp_cache request.header.message_id) [
    | none ↦ []
    | some (ts, datagrams) ↦
        if leb (length datagrams) first_lost then [] else drop first_lost datagrams
  ]
]
