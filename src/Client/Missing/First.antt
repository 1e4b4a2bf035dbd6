-- ===== src/Client/Missing/First.antt =====
-- The first sequence number that is missing heads the list of those that are.
use akari_proxy.Prelude.{
  ℕ, ◌≡◌, ap, ◌∙◌, inl, inr, some, List, [], ◌∷◌, Bool-cases, some_inj, keep, keep_yes, keep_no,
  range, Bytes, nat_eq, text_key,
}
use akari_proxy.Prelude.Dict.{Dict}
use akari_proxy.Client.Accumulator.{ResponseAccumulator}
use akari_proxy.Client.Missing.{
  lacks, missing_of, missing_seq_list, first_lacking, first_missing_seq,
}

keep-first_lacking :
    (got : Dict ℕ Bytes) (xs : List ℕ) {first : ℕ}
    → first_lacking got xs ≡ some first
    → (rest : List ℕ) × (keep (lacks got) xs ≡ first ∷ rest)
unfolding first_lacking
keep-first_lacking got [] h = cc
keep-first_lacking got (x ∷ xs) {first} h = elim (Bool-cases (lacks got x)) [
  | inl e ↦ (
    keep (lacks got) xs,
    keep_yes (lacks got) x xs e ∙ ap (λ y. y ∷ keep (lacks got) xs) (some_inj (rw e at h)),
  )
  | inr e ↦
      let (rest, k) = keep-first_lacking got xs {first = first} (rw e at h) in
      (rest, keep_no (lacks got) x xs e ∙ k)
]

pub missing_seq_list-first_missing_seq :
    (acc : ResponseAccumulator) (total first : ℕ)
    → acc.seq_total ≡ some total
    → first_missing_seq acc ≡ some first
    → (rest : List ℕ) × (missing_seq_list acc ≡ first ∷ rest)
unfolding first_missing_seq missing_seq_list missing_of
missing_seq_list-first_missing_seq acc total first t h =
    let (rest, k) = keep-first_lacking acc.chunks (range total) {first = first} (rw t at h) in
    (rest, rw t k)
