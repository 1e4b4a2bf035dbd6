-- ===== src/Client/Missing/Bitmap/Marks.antt =====
-- Which bits of the bitmap the client sets.
use akari_proxy.Prelude.{
  ℕ, zero, suc, ◌/◌, ◌%◌, ◌<◌, ◌≡◌, refl, ap, ◌∙◌, Bool, false, ◌&&◌, ◌||◌, List, [], ◌∷◌, arith,
  ◌==◌, length, All, All-mono, Bytes, nat_eq, text_key,
}
use akari_proxy.Prelude.Sorted.{elem}
use akari_proxy.Handler.Nack.{has_bit}
use akari_proxy.Client.Missing.{set_bit, zeros, mark, mark_all}

-- A fact about the bits of a byte, from its eight cases.
bit_cases : (P : ℕ → Type 0) → P 0 → P 1 → P 2 → P 3 → P 4 → P 5 → P 6 → P 7 → (k : ℕ) → k < 8 → P k
bit_cases P a b c d e f g h zero l = a
bit_cases P a b c d e f g h (suc zero) l = b
bit_cases P a b c d e f g h (suc (suc zero)) l = c
bit_cases P a b c d e f g h (suc (suc (suc zero))) l = d
bit_cases P a b c d e f g h (suc (suc (suc (suc zero)))) l = e
bit_cases P a b c d e f g h (suc (suc (suc (suc (suc zero))))) l = f
bit_cases P a b c d e f g h (suc (suc (suc (suc (suc (suc zero)))))) l = g
bit_cases P a b c d e f g h (suc (suc (suc (suc (suc (suc (suc zero))))))) l = h
bit_cases P a b c d e f g h (suc (suc (suc (suc (suc (suc (suc (suc k)))))))) l =
    absurd (omega arith)

-- Setting bit `k` changes no other bit.
abbrev Sets : ℕ → ℕ → ℕ → Type 0
Sets byte k j = has_bit (set_bit byte k) j ≡ (j == k || has_bit byte j)

has_bit-set_bit : (byte k j : ℕ) → k < 8 → j < 8 → Sets byte k j
unfolding set_bit
has_bit-set_bit byte k j hk hj =
    bit_cases (λ k. Sets byte k j)
      (bit_cases (Sets byte 0) (ground arith) (ground arith) (ground arith) (ground arith)
        (ground arith) (ground arith) (ground arith) (ground arith) j hj)
      (bit_cases (Sets byte 1) (ground arith) (ground arith) (ground arith) (ground arith)
        (ground arith) (ground arith) (ground arith) (ground arith) j hj)
      (bit_cases (Sets byte 2) (ground arith) (ground arith) (ground arith) (ground arith)
        (ground arith) (ground arith) (ground arith) (ground arith) j hj)
      (bit_cases (Sets byte 3) (ground arith) (ground arith) (ground arith) (ground arith)
        (ground arith) (ground arith) (ground arith) (ground arith) j hj)
      (bit_cases (Sets byte 4) (ground arith) (ground arith) (ground arith) (ground arith)
        (ground arith) (ground arith) (ground arith) (ground arith) j hj)
      (bit_cases (Sets byte 5) (ground arith) (ground arith) (ground arith) (ground arith)
        (ground arith) (ground arith) (ground arith) (ground arith) j hj)
      (bit_cases (Sets byte 6) (ground arith) (ground arith) (ground arith) (ground arith)
        (ground arith) (ground arith) (ground arith) (ground arith) j hj)
      (bit_cases (Sets byte 7) (ground arith) (ground arith) (ground arith) (ground arith)
        (ground arith) (ground arith) (ground arith) (ground arith) j hj)
      k hk

-- Bit `seq % 8` of byte `seq / 8`; no bit is set behind the end.
unfoldable pub bit_at : Bytes → ℕ → ℕ → Bool
bit_at [] idx bit = false
bit_at (byte ∷ bitmap) zero bit = has_bit byte bit
bit_at (byte ∷ bitmap) (suc idx) bit = bit_at bitmap idx bit

pub bit_at-zeros : (n idx bit : ℕ) → bit < 8 → bit_at (zeros n) idx bit ≡ false
unfolding bit_at
bit_at-zeros zero idx bit h = refl
bit_at-zeros (suc n) zero bit h =
    bit_cases (λ b. has_bit 0 b ≡ false) refl refl refl refl refl refl refl refl bit h
bit_at-zeros (suc n) (suc idx) bit h = bit_at-zeros n idx bit h

bit_at-mark :
    (bitmap : Bytes) (idx bit i b : ℕ)
    → bit < 8
    → b < 8
    → idx < length bitmap
    → bit_at (mark bitmap idx bit) i b ≡ ((i == idx && b == bit) || bit_at bitmap i b)
unfolding bit_at mark
bit_at-mark [] idx bit i b h k l = absurd (omega arith)
bit_at-mark (byte ∷ bitmap) zero bit zero b h k l = ground (arith, has_bit-set_bit byte bit b)
bit_at-mark (byte ∷ bitmap) zero bit (suc i) b h k l = ground arith
bit_at-mark (byte ∷ bitmap) (suc idx) bit zero b h k l = ground arith
bit_at-mark (byte ∷ bitmap) (suc idx) bit (suc i) b h k l =
    ground (arith, bit_at-mark bitmap idx bit i b h k)

length-mark : (bitmap : Bytes) (idx bit : ℕ) → length (mark bitmap idx bit) ≡ length bitmap
unfolding mark
length-mark [] idx bit = refl
length-mark (b ∷ bitmap) zero bit = refl
length-mark (b ∷ bitmap) (suc idx) bit = ap suc (length-mark bitmap idx bit)

-- The bit of a sequence number.
abbrev pub seq_bit : Bytes → ℕ → Bool
seq_bit bitmap seq = bit_at bitmap (seq / 8) (seq % 8)

seq_bit-mark :
    (bitmap : Bytes) (seq s : ℕ)
    → seq / 8 < length bitmap
    → seq_bit (mark bitmap (seq / 8) (seq % 8)) s ≡ (s == seq || seq_bit bitmap s)
seq_bit-mark bitmap seq s h =
    ground
      (arith, bit_at-mark bitmap (seq / 8) (seq % 8) (s / 8) (s % 8) (omega arith) (omega arith) h)

pub seq_bit-mark_all :
    (bitmap : Bytes) (missing : List ℕ) (s : ℕ)
    → All (λ x. x / 8 < length bitmap) missing
    → seq_bit (mark_all bitmap missing) s ≡ (elem s missing || seq_bit bitmap s)
unfolding mark_all
seq_bit-mark_all bitmap [] s h = refl
seq_bit-mark_all bitmap (seq ∷ missing) s h =
    let marked : Bytes = mark bitmap (seq / 8) (seq % 8) in
    ground (
      arith,
      seq_bit-mark bitmap seq s h.0,
      seq_bit-mark_all marked missing s (
          All-mono (λ x. x / 8 < length bitmap) (λ x. x / 8 < length marked) missing
            (λ x l. omega (arith, length-mark bitmap (seq / 8) (seq % 8))) h.1),
    )

length-mark_all :
    (bitmap : Bytes) (missing : List ℕ) → length (mark_all bitmap missing) ≡ length bitmap
unfolding mark_all
length-mark_all bitmap [] = refl
length-mark_all bitmap (seq ∷ missing) =
    length-mark_all (mark bitmap (seq / 8) (seq % 8)) missing
    ∙ length-mark bitmap (seq / 8) (seq % 8)

pub length-zeros : (n : ℕ) → length (zeros n) ≡ n
length-zeros zero = refl
length-zeros (suc n) = ap suc (length-zeros n)
