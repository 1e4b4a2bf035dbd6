-- ===== src/Client/Missing/Bitmap.antt =====
-- The server reads from the bitmap of a NACK the list that the client built it from.
pub mod Marks
use akari_proxy.Prelude.{
  ℕ, suc, ◌+◌, ◌-◌, ◌*◌, ◌/◌, ◌%◌, ◌≤◌, ◌<◌, ◌≡◌, refl, ap, inl, inr, true, ◌&&◌, ◌||◌, List, [],
  ◌∷◌, arith, ltb, ltb-false→le, Bool-cases, length, All, All-mono, range, Bytes, nat_eq, text_key,
}
use akari_proxy.Prelude.Sorted.{
  elem, IncreasingFrom, IncreasingFrom-mono, increasing_ext, IncreasingFrom-append, elem-append,
  elem-range_from, elem-below, range_from-Increasing,
}
use akari_proxy.Handler.Nack.{has_bit, byte_seqs, bitmap_seqs, bitmap_to_seq}
use akari_proxy.Client.Missing.{maximum, zeros, mark_all, build_missing_bitmap_from_list}
use akari_proxy.Client.Missing.Bitmap.Marks.{
  bit_at, bit_at-zeros, seq_bit, seq_bit-mark_all, length-zeros,
}

All-maximum : (xs : List ℕ) (m : ℕ) → maximum xs ≤ m → All (λ x. x ≤ m) xs
All-maximum [] m h = tt
All-maximum (x ∷ xs) m h = (omega arith, All-maximum xs m (omega arith))

-- The members of the list that the server reads.
elem-byte_seqs :
    (idx byte : ℕ) (bits : List ℕ) (b : ℕ)
    → elem (idx * 8 + b) (byte_seqs idx byte bits) ≡ (elem b bits && has_bit byte b)
unfolding byte_seqs
elem-byte_seqs idx byte [] b = refl
elem-byte_seqs idx byte (bit ∷ bits) b = ground (arith, elem-byte_seqs idx byte bits b)

byte_seqs-Increasing :
    (idx byte lo : ℕ) (bits : List ℕ)
    → IncreasingFrom lo bits
    → IncreasingFrom (idx * 8 + lo) (byte_seqs idx byte bits)
unfolding byte_seqs
byte_seqs-Increasing idx byte lo [] h = tt
byte_seqs-Increasing idx byte lo (bit ∷ bits) h =
    let rest = byte_seqs-Increasing idx byte (suc bit) bits h.1 in
    elim (Bool-cases (has_bit byte bit)) [
      | inl e ↦ rw e (omega arith, IncreasingFrom-mono _ (idx * 8 + suc bit) _ (omega arith) rest)
      | inr e ↦ rw e (IncreasingFrom-mono _ (idx * 8 + suc bit) _ (omega arith) rest)
    ]

elem-byte_seqs_lt :
    (idx byte x : ℕ) (bits : List ℕ)
    → ((b : ℕ) → elem b bits ≡ true → b < 8)
    → elem x (byte_seqs idx byte bits) ≡ true
    → x < idx * 8 + 8
unfolding byte_seqs
elem-byte_seqs_lt idx byte x [] h e = cc
elem-byte_seqs_lt idx byte x (bit ∷ bits) h e =
    ground (arith, h bit, elem-byte_seqs_lt idx byte x bits (λ b m. ground (arith, h b)))

bitmap_seqs-Increasing :
    (idx : ℕ) (bitmap : Bytes) → IncreasingFrom (idx * 8) (bitmap_seqs idx bitmap)
unfolding bitmap_seqs
bitmap_seqs-Increasing idx [] = tt
bitmap_seqs-Increasing idx (byte ∷ bitmap) =
    IncreasingFrom-append (idx * 8) (suc idx * 8) (byte_seqs idx byte (range 8))
      (bitmap_seqs (suc idx) bitmap)
      (IncreasingFrom-mono _ (idx * 8 + 0) _ (omega arith)
        (byte_seqs-Increasing idx byte 0 (range 8) (range_from-Increasing 0 8)))
      (omega arith)
      (λ x e. omega (
        arith,
        elem-byte_seqs_lt idx byte x (range 8) (λ b m. ground (arith, elem-range_from b 0 8)) e,
      ))
      (bitmap_seqs-Increasing (suc idx) bitmap)

module _ (byte : ℕ) (bitmap : Bytes) where
  seq_bit_first : (t : ℕ) → t < 8 → seq_bit (byte ∷ bitmap) t ≡ has_bit byte t
  unfolding bit_at
  seq_bit_first t h =
      let first : t / 8 ≡ 0 = omega arith in let same : t % 8 ≡ t = omega arith in rw (first, same)

  seq_bit_later : (t : ℕ) → 8 ≤ t → seq_bit (byte ∷ bitmap) t ≡ seq_bit bitmap (t - 8)
  unfolding bit_at
  seq_bit_later t h =
      let later : t / 8 ≡ suc ((t - 8) / 8) = omega arith in
      let same : t % 8 ≡ (t - 8) % 8 = omega arith in rw (later, same)

bitmap_seqs_cons :
    (x idx byte : ℕ) (bitmap : Bytes)
    → elem x (bitmap_seqs idx (byte ∷ bitmap))
      ≡ (elem x (byte_seqs idx byte (range 8)) || elem x (bitmap_seqs (suc idx) bitmap))
unfolding bitmap_seqs
bitmap_seqs_cons x idx byte bitmap =
    elem-append x (byte_seqs idx byte (range 8)) (bitmap_seqs (suc idx) bitmap)

bitmap_seqs_nil : (idx : ℕ) → bitmap_seqs idx [] ≡ []
unfolding bitmap_seqs
bitmap_seqs_nil idx = refl

elem-bitmap_seqs :
    (idx t : ℕ) (bitmap : Bytes) → elem (idx * 8 + t) (bitmap_seqs idx bitmap) ≡ seq_bit bitmap t
unfolding bit_at
elem-bitmap_seqs idx t [] = rw (bitmap_seqs_nil idx)
elem-bitmap_seqs idx t (byte ∷ bitmap) =
    let x : ℕ = idx * 8 + t in
    let later : List ℕ = bitmap_seqs (suc idx) bitmap in
    let split = bitmap_seqs_cons x idx byte bitmap in
    let here = elem-byte_seqs idx byte (range 8) t in
    let bits = elem-range_from t 0 8 in
    elim (Bool-cases (ltb t 8)) [
      | inl low ↦ ground (
        arith,
        split,
        here,
        bits,
        seq_bit_first byte bitmap t,
        elem-below (suc idx * 8) x later (bitmap_seqs-Increasing (suc idx) bitmap),
      )
      | inr high ↦ ground (
        arith,
        split,
        here,
        bits,
        seq_bit_later byte bitmap t,
        ap (λ (x : ℕ). elem x later) (shift t (ltb-false→le t 8 high)),
        elem-bitmap_seqs (suc idx) (t - 8) bitmap,
      )
    ]
  where
    shift : (t : ℕ) → 8 ≤ t → idx * 8 + t ≡ suc idx * 8 + (t - 8)
    shift t h = omega arith

-- From the bitmap that the client builds of an increasing list of sequence numbers the server reads
-- that list.
pub bitmap_to_seq-build_missing_bitmap :
    (missing : List ℕ)
    → IncreasingFrom 0 missing
    → bitmap_to_seq (build_missing_bitmap_from_list missing) ≡ missing
unfolding bitmap_to_seq
bitmap_to_seq-build_missing_bitmap [] h = unfold build_missing_bitmap_from_list in refl
bitmap_to_seq-build_missing_bitmap (seq ∷ missing) h =
    increasing_ext 0 _ (seq ∷ missing)
      (IncreasingFrom-mono _ 0 _ (omega arith) (bitmap_seqs-Increasing 0 _)) h members
  where
    size : ℕ
    size = maximum (seq ∷ missing) / 8 + 1

    fits : All (λ x. x / 8 < length (zeros size)) (seq ∷ missing)
    fits =
        All-mono (λ x. x ≤ maximum (seq ∷ missing)) (λ x. x / 8 < length (zeros size))
          (seq ∷ missing) (λ x l. omega (arith, length-zeros size))
          (All-maximum (seq ∷ missing) (maximum (seq ∷ missing)) (omega arith))

    members :
        (x : ℕ)
        → elem x (bitmap_seqs 0 (build_missing_bitmap_from_list (seq ∷ missing)))
          ≡ elem x (seq ∷ missing)
    members x =
        unfold build_missing_bitmap_from_list in
        ground (
          arith,
          elem-bitmap_seqs 0 x (mark_all (zeros size) (seq ∷ missing)),
          seq_bit-mark_all (zeros size) (seq ∷ missing) x fits,
          bit_at-zeros size (x / 8) (x % 8),
        )
