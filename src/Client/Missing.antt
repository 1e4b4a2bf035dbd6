-- ===== src/Client/Missing.antt =====
-- What the client of udp_client.py asks for again: `_missing_seq_list`, `_sanitize_missing`,
-- `_first_missing_seq` and `_build_missing_bitmap_from_list`.
pub mod Bitmap
pub mod First
use akari_proxy.Prelude.{
  ℕ, zero, suc, ◌+◌, ◌/◌, ◌%◌, ◌^◌, max, Bool, not, Option, none, some, List, [], ◌∷◌,
  if◌then◌else◌, keep, range, Bytes, nat_eq, text_key,
}
use akari_proxy.Prelude.Dict.{Dict, has}
use akari_proxy.Handler.Nack.{has_bit}
use akari_proxy.Client.Accumulator.{ResponseAccumulator}

-- `max(missing)` of a list that is not empty
abbrev pub maximum : List ℕ → ℕ
maximum [] = 0
maximum (x ∷ xs) = max x (maximum xs)

-- `byte |= 1 << bit`
unfoldable pub set_bit : ℕ → ℕ → ℕ
set_bit byte bit = if has_bit byte bit then byte else byte + 2 ^ bit

-- `bytearray(n)`
abbrev pub zeros : ℕ → Bytes
zeros zero = []
zeros (suc n) = 0 ∷ zeros n

-- `bitmap[idx] |= 1 << bit`, at an index in range
unfoldable pub mark : Bytes → ℕ → ℕ → Bytes
unfolding set_bit
mark [] idx bit = []
mark (b ∷ bitmap) zero bit = set_bit b bit ∷ bitmap
mark (b ∷ bitmap) (suc idx) bit = b ∷ mark bitmap idx bit

unfoldable pub mark_all : Bytes → List ℕ → Bytes
mark_all bitmap [] = bitmap
mark_all bitmap (seq ∷ missing) = mark_all (mark bitmap (seq / 8) (seq % 8)) missing

unfoldable pub build_missing_bitmap_from_list : List ℕ → Bytes
build_missing_bitmap_from_list [] = []
build_missing_bitmap_from_list (seq ∷ missing) =
    mark_all (zeros (maximum (seq ∷ missing) / 8 + 1)) (seq ∷ missing)

-- `seq not in acc.chunks`
abbrev pub lacks : Dict ℕ Bytes → ℕ → Bool
lacks got seq = not (has got seq)

-- `[i for i in range(total) if i not in got]`
unfoldable pub missing_of : ℕ → Dict ℕ Bytes → List ℕ
missing_of total got = keep (lacks got) (range total)

unfoldable pub missing_seq_list : ResponseAccumulator → List ℕ
missing_seq_list acc = elim acc.seq_total [ none ↦ [] | some total ↦ missing_of total acc.chunks ]

unfoldable pub sanitize_missing : List ℕ → ResponseAccumulator → List ℕ
sanitize_missing missing acc = keep (lacks acc.chunks) missing

-- The loop of `_first_missing_seq` over the sequence numbers left.
first_lacking : Dict ℕ Bytes → List ℕ → Option ℕ
first_lacking got [] = none
first_lacking got (seq ∷ seqs) =
    let later = first_lacking got seqs in if lacks got seq then some seq else later

unfoldable pub first_missing_seq : ResponseAccumulator → Option ℕ
unfolding first_lacking
first_missing_seq acc = elim acc.seq_total [
  | none ↦ none
  | some total ↦ first_lacking acc.chunks (range total)
]

unfoldable pub build_missing_bitmap : ResponseAccumulator → Bytes
build_missing_bitmap acc = elim acc.seq_total [
  | none ↦ []
  | some total ↦ build_missing_bitmap_from_list (missing_seq_list acc)
]
