-- ===== src/Client/Accumulator/Reassembly.antt =====
-- The body packets of a v3 response give the body, in whatever order and how often they come.
use native.Mathlib.Nat.{add-zero}
use akari_proxy.Prelude.{
  ℕ, suc, ◌+◌, ◌≤◌, ◌<◌, ◌≡◌, refl, ap, ap₂, ◌∙◌, inl, inr, true, ◌||◌, none, some, List, [], ◌∷◌,
  ◌++◌, map, arith, ◌==◌, if◌then◌else◌, Bool-cases, is_some, or_else, length, get_elem?, concat,
  get_elem?-lt, get_elem?-some, range_from, range, Bytes, nat_eq, text_key,
}
use akari_proxy.Prelude.Dict.{Dict, get, put, get-put}
use akari_proxy.Prelude.Sorted.{
  elem, sorted, Distinct, elem-sorted, sorted-Increasing, length-sorted, Increasing_full,
  elem-range_from, range_from-Increasing, increasing_ext,
}
use akari_proxy.Client.Accumulator.{keys, join_sorted}

elem-keys : (d : Dict ℕ Bytes) (i : ℕ) → elem i (keys d) ≡ is_some (get d i)
unfolding get
elem-keys [] i = refl
elem-keys ((k, v) ∷ d) i = ground (arith, elem-keys d i)

elem-keys-put :
    (d : Dict ℕ Bytes) (k i : ℕ) (v : Bytes)
    → elem i (keys (put d k v)) ≡ (i == k || elem i (keys d))
unfolding put
elem-keys-put [] k i v = ground arith
elem-keys-put ((j, w) ∷ d) k i v = ground (arith, elem-keys-put d k i v)

Distinct-put :
    (d : Dict ℕ Bytes) (k : ℕ) (v : Bytes) → Distinct (keys d) → Distinct (keys (put d k v))
unfolding put
Distinct-put [] k v h = (refl, tt)
Distinct-put ((j, w) ∷ d) k v h = elim (Bool-cases (j == k)) [
  | inl same ↦ rw same h
  | inr other ↦ rw other (ground (arith, elem-keys-put d k j v, h.0), Distinct-put d k v h.1)
]

-- A dict that holds chunk `i` of `whole` under each key `i` that has come.
pub record Holds (whole : List Bytes) (came : List ℕ) (d : Dict ℕ Bytes) : Type 0 where
  pub distinct : Distinct (keys d)
  pub holds : (i : ℕ) → get d i ≡ (if elem i came then get_elem? whole i else none)
  pub within : (i : ℕ) → elem i came ≡ true → i < length whole

pub Holds-nil : (whole : List Bytes) → Holds whole [] []
unfolding get
Holds-nil whole = record { distinct = tt; holds = λ i. refl; within = λ i e. cc }

pub Holds-put :
    (whole : List Bytes) (came : List ℕ) (d : Dict ℕ Bytes) (i : ℕ) (chunk : Bytes)
    → Holds whole came d
    → get_elem? whole i ≡ some chunk
    → Holds whole (i ∷ came) (put d i chunk)
Holds-put whole came d i chunk h e = record {
  distinct = Distinct-put d i chunk h.distinct;
  holds = λ j. ground (arith, get-put d i j chunk, h.holds j, e);
  within = λ j m. ground (arith, h.within j, get_elem?-lt whole i e);
}

module _ (whole : List Bytes) (came : List ℕ) (d : Dict ℕ Bytes) (h : Holds whole came d) where
  pub elem-keys-came : (i : ℕ) → elem i (keys d) ≡ elem i came
  elem-keys-came i = elim (Bool-cases (elem i came)) [
    | inl e ↦
        let (chunk, f) = get_elem?-some whole i (h.within i e) in
        ground (arith, elem-keys d i, h.holds i, e, f)
    | inr e ↦ ground (arith, elem-keys d i, h.holds i, e)
  ]

  -- As many keys as chunks are all the keys.
  pub keys_full : length whole ≤ length (keys d) → sorted (keys d) ≡ range (length whole)
  keys_full l =
      Increasing_full 0 (length whole) (sorted (keys d)) (sorted-Increasing (keys d) h.distinct)
        (λ x e.
          omega (arith, h.within x (ground (arith, elem-sorted x (keys d), elem-keys-came x))))
        (omega (arith, length-sorted (keys d)))

  -- All the chunks are as many keys.
  pub keys_all :
      ((i : ℕ) → i < length whole → elem i came ≡ true) → sorted (keys d) ≡ range (length whole)
  keys_all all_came =
      increasing_ext 0 (sorted (keys d)) (range (length whole))
        (sorted-Increasing (keys d) h.distinct) (range_from-Increasing 0 (length whole))
        (λ x. elim (Bool-cases (elem x came)) [
          | inl e ↦ ground (
            arith,
            elem-sorted x (keys d),
            elem-keys-came x,
            e,
            h.within x e,
            elem-range_from x 0 (length whole),
          )
          | inr e ↦ ground (
            arith,
            elem-sorted x (keys d),
            elem-keys-came x,
            e,
            all_came x,
            elem-range_from x 0 (length whole),
          )
        ])

concat-range_from :
    (f : ℕ → Bytes) (lo : ℕ) (xs : List Bytes)
    → ((i : ℕ) → i < length xs → f (lo + i) ≡ or_else (get_elem? xs i) [])
    → concat (map f (range_from lo (length xs))) ≡ concat xs
concat-range_from f lo [] h = refl
concat-range_from f lo (x ∷ xs) h = ap₂ ◌++◌ first (concat-range_from f (suc lo) xs later)
  where
    first : f lo ≡ x
    first = rw (← add-zero lo) (h 0 (omega arith))

    later : (i : ℕ) → i < length xs → f (suc lo + i) ≡ or_else (get_elem? xs i) []
    later i l = ap f shift ∙ h (suc i) (omega arith)
      where
        shift : suc lo + i ≡ lo + suc i
        shift = omega arith

pub join_sorted_lem :
    (whole : List Bytes) (came : List ℕ) (d : Dict ℕ Bytes)
    → Holds whole came d
    → sorted (keys d) ≡ range (length whole)
    → join_sorted d ≡ concat whole
unfolding join_sorted
join_sorted_lem whole came d h e =
    ap (λ ks. concat (map (λ k. or_else (get d k) []) ks)) e
    ∙ concat-range_from (λ k. or_else (get d k) []) 0 whole (λ i l. chunk i (0 + i) l (omega arith))
  where
    here : (i : ℕ) → i < length whole → elem i came ≡ true
    here i l = ground (
      arith,
      ap (elem i) e,
      elem-range_from i 0 (length whole),
      elem-sorted i (keys d),
      elem-keys-came whole came d h i,
    )

    chunk :
        (i j : ℕ) → i < length whole → j ≡ i → or_else (get d j) [] ≡ or_else (get_elem? whole i) []
    chunk i j l same = rw same (ground (arith, h.holds i, here i l))

pub length-keys : (d : Dict ℕ Bytes) → length (keys d) ≡ length d
length-keys [] = refl
length-keys ((k, v) ∷ d) = ap suc (length-keys d)
