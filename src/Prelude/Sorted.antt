-- ===== src/Prelude/Sorted.antt =====
-- Increasing lists of numbers, and membership as a test.
use Prim.Native.Nat.{ℕ, zero, suc, ◌+◌, ◌≤◌, ◌<◌}
use mathlib.Core.Path.{◌≡◌, refl, ap, ap₂, ◌∙◌}
use mathlib.Core.Bool.{Bool, true, false, ◌||◌}
use mathlib.Core.List.{List, [], ◌∷◌, ◌++◌}
use native.Mathlib.Omega.{arith}
use akari_proxy.Prelude.Tests.{◌==◌, ltb, leb, if◌then◌else◌, Bool-cases}
use mathlib.Core.Logic.{inl, inr}
use akari_proxy.Prelude.Lists.{range_from, length}

-- `x in xs`
abbrev pub elem : ℕ → List ℕ → Bool
elem x [] = false
elem x (y ∷ ys) = x == y || elem x ys

-- Strictly increasing, from `lo` on.
abbrev pub IncreasingFrom : ℕ → List ℕ → Type 0
IncreasingFrom lo [] = Unit
IncreasingFrom lo (x ∷ xs) = (lo ≤ x) × IncreasingFrom (suc x) xs

pub IncreasingFrom-mono :
    (lo hi : ℕ) (xs : List ℕ) → lo ≤ hi → IncreasingFrom hi xs → IncreasingFrom lo xs
IncreasingFrom-mono lo hi [] h k = tt
IncreasingFrom-mono lo hi (x ∷ xs) h k = (omega arith, k.1)

pub elem-below : (lo x : ℕ) (xs : List ℕ) → IncreasingFrom lo xs → x < lo → elem x xs ≡ false
elem-below lo x [] h k = refl
elem-below lo x (y ∷ ys) h k = ground (arith, elem-below (suc y) x ys)

-- An increasing list is known by its members.
pub increasing_ext :
    (lo : ℕ) (xs ys : List ℕ)
    → IncreasingFrom lo xs
    → IncreasingFrom lo ys
    → ((x : ℕ) → elem x xs ≡ elem x ys)
    → xs ≡ ys
increasing_ext lo [] [] h k e = refl
increasing_ext lo [] (y ∷ ys) h k e = ground (arith, e y)
increasing_ext lo (x ∷ xs) [] h k e = ground (arith, e x)
increasing_ext lo (x ∷ xs) (y ∷ ys) h k e =
    ap₂ ◌∷◌ same (increasing_ext (suc x) xs ys h.1 below members)
  where
    same : x ≡ y
    same = ground (arith, e x, e y, elem-below (suc x) y xs h.1, elem-below (suc y) x ys k.1)

    below : IncreasingFrom (suc x) ys
    below = IncreasingFrom-mono (suc x) (suc y) ys (omega (arith, same)) k.1

    members : (z : ℕ) → elem z xs ≡ elem z ys
    members z =
        ground (arith, same, e z, elem-below (suc x) z xs h.1, elem-below (suc x) z ys below)

pub range_from-Increasing : (lo n : ℕ) → IncreasingFrom lo (range_from lo n)
range_from-Increasing lo zero = tt
range_from-Increasing lo (suc n) = (omega arith, range_from-Increasing (suc lo) n)

pub elem-range_from :
    (x lo n : ℕ) → elem x (range_from lo n) ≡ (if leb lo x then ltb x (lo + n) else false)
elem-range_from x lo zero = ground arith
elem-range_from x lo (suc n) = ground (arith, elem-range_from x (suc lo) n)

pub IncreasingFrom-append :
    (lo hi : ℕ) (xs ys : List ℕ)
    → IncreasingFrom lo xs
    → lo ≤ hi
    → ((x : ℕ) → elem x xs ≡ true → x < hi)
    → IncreasingFrom hi ys
    → IncreasingFrom lo (xs ++ ys)
IncreasingFrom-append lo hi [] ys h l b k = IncreasingFrom-mono lo hi ys l k
IncreasingFrom-append lo hi (x ∷ xs) ys h l b k = (
  h.0,
  IncreasingFrom-append (suc x) hi xs ys h.1 (ground (arith, b x)) (λ z e. ground (arith, b z)) k,
)

pub elem-append : (x : ℕ) (xs ys : List ℕ) → elem x (xs ++ ys) ≡ (elem x xs || elem x ys)
elem-append x [] ys = refl
elem-append x (y ∷ xs) ys = ground (arith, elem-append x xs ys)

-- `sorted(xs)`
pub insert_sorted : ℕ → List ℕ → List ℕ
insert_sorted x [] = x ∷ []
insert_sorted x (y ∷ ys) = if leb x y then x ∷ y ∷ ys else y ∷ insert_sorted x ys

unfoldable pub sorted : List ℕ → List ℕ
unfolding insert_sorted
sorted [] = []
sorted (x ∷ xs) = insert_sorted x (sorted xs)

-- No number twice.
abbrev pub Distinct : List ℕ → Type 0
Distinct [] = Unit
Distinct (x ∷ xs) = (elem x xs ≡ false) × Distinct xs

elem-insert_sorted : (z x : ℕ) (xs : List ℕ) → elem z (insert_sorted x xs) ≡ (z == x || elem z xs)
unfolding insert_sorted
elem-insert_sorted z x [] = refl
elem-insert_sorted z x (y ∷ ys) = ground (arith, elem-insert_sorted z x ys)

pub elem-sorted : (z : ℕ) (xs : List ℕ) → elem z (sorted xs) ≡ elem z xs
unfolding sorted
elem-sorted z [] = refl
elem-sorted z (x ∷ xs) = ground (arith, elem-insert_sorted z x (sorted xs), elem-sorted z xs)

insert_sorted-Increasing :
    (lo x : ℕ) (xs : List ℕ)
    → lo ≤ x
    → elem x xs ≡ false
    → IncreasingFrom lo xs
    → IncreasingFrom lo (insert_sorted x xs)
unfolding insert_sorted
insert_sorted-Increasing lo x [] l e h = (l, tt)
insert_sorted-Increasing lo x (y ∷ ys) l e h = elim (Bool-cases (leb x y)) [
  | inl below ↦ rw below (l, (ground arith, h.1))
  | inr above ↦
      rw above (h.0, insert_sorted-Increasing (suc y) x ys (ground arith) (ground arith) h.1)
]

pub sorted-Increasing : (xs : List ℕ) → Distinct xs → IncreasingFrom 0 (sorted xs)
unfolding sorted
sorted-Increasing [] h = tt
sorted-Increasing (x ∷ xs) h =
    insert_sorted-Increasing 0 x (sorted xs) (omega arith) (elem-sorted x xs ∙ h.0)
      (sorted-Increasing xs h.1)

length-insert_sorted : (x : ℕ) (xs : List ℕ) → length (insert_sorted x xs) ≡ suc (length xs)
unfolding insert_sorted
length-insert_sorted x [] = refl
length-insert_sorted x (y ∷ ys) = ground (arith, length-insert_sorted x ys)

pub length-sorted : (xs : List ℕ) → length (sorted xs) ≡ length xs
unfolding sorted
length-sorted [] = refl
length-sorted (x ∷ xs) = length-insert_sorted x (sorted xs) ∙ ap suc (length-sorted xs)

-- An increasing list below `hi` has no room for more than `hi - lo` numbers.
pub length-Increasing :
    (lo hi : ℕ) (xs : List ℕ)
    → lo ≤ hi
    → IncreasingFrom lo xs
    → ((x : ℕ) → elem x xs ≡ true → x < hi)
    → lo + length xs ≤ hi
length-Increasing lo hi [] l h b = omega arith
length-Increasing lo hi (x ∷ xs) l h b =
    omega
      (arith, length-Increasing (suc x) hi xs (b x (ground arith)) h.1 (λ z e. b z (ground arith)))

-- With that many it is the whole range.
pub Increasing_full :
    (lo n : ℕ) (xs : List ℕ)
    → IncreasingFrom lo xs
    → ((x : ℕ) → elem x xs ≡ true → x < lo + n)
    → n ≤ length xs
    → xs ≡ range_from lo n
Increasing_full lo zero [] h b l = refl
Increasing_full lo zero (x ∷ xs) h b l = absurd (omega (arith, b x (ground arith)))
Increasing_full lo (suc n) [] h b l = absurd (omega arith)
Increasing_full lo (suc n) (x ∷ xs) h b l = ap₂ ◌∷◌ same (
    Increasing_full (suc lo) n xs (IncreasingFrom-mono (suc lo) (suc x) xs (omega arith) h.1) below
      (omega arith))
  where
    room : suc x + length xs ≤ lo + suc n
    room =
        length-Increasing (suc x) (lo + suc n) xs (b x (ground arith)) h.1
          (λ z e. b z (ground arith))

    same : x ≡ lo
    same = omega (arith, room)

    below : (z : ℕ) → elem z xs ≡ true → z < suc lo + n
    below z e = omega (arith, b z (ground arith))
