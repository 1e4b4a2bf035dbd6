-- ===== src/Handler/Split.antt =====
-- `_split_body`: a body as its first chunk and the later ones.
use akari_proxy.Prelude.{
  ℕ, zero, suc, ◌-◌, ◌≤◌, ◌<◌, max, ◌≡◌, refl, Bool, true, ◌&&◌, Option, List, [], ◌∷◌, ◌++◌, arith,
  leb, if◌then◌else◌, length, take, drop, take_all, drop_all, concat, All, take-append-drop,
  length-take, length-drop, Bytes,
}
use akari_proxy.Handler.Sizes.{calc_payload_caps, calc_payload_caps_pos, v3_tag}

-- `[data[i : i + cap] for i in range(0, len(data), cap)]`, at most `fuel` slices.
slices_fuel : ℕ → ℕ → Bytes → List Bytes
slices_fuel zero cap bytes = []
slices_fuel (suc fuel) cap [] = []
slices_fuel (suc fuel) cap (b ∷ bs) = take cap (b ∷ bs) ∷ slices_fuel fuel cap (drop cap (b ∷ bs))

-- Each slice takes a byte at least where the cap is positive, so the length is fuel enough.
unfoldable pub slices : ℕ → Bytes → List Bytes
unfolding slices_fuel
slices cap bytes = slices_fuel (length bytes) cap bytes

-- The caps that `_split_body` cuts by: 16 bytes less where the last chunk carries a tag.
unfoldable pub split_caps : Option ℕ → ℕ → Option ℕ → ℕ → ℕ → Bool → ℕ × ℕ
split_caps buffer_size header_block_len payload_max version flags agg_tag =
    let (cap_first, cap_tail) =
      calc_payload_caps buffer_size header_block_len payload_max version flags true in
    if leb 3 version && agg_tag
    then (max (cap_first - v3_tag) 1, max (cap_tail - v3_tag) 1)
    else (cap_first, cap_tail)

unfoldable pub split_body : Bytes → Option ℕ → ℕ → Option ℕ → ℕ → ℕ → Bool → Bytes × List Bytes
split_body body buffer_size header_block_len payload_max version flags agg_tag =
    let (cap_first, cap_tail) =
      split_caps buffer_size header_block_len payload_max version flags agg_tag in
    (take cap_first body, slices cap_tail (drop cap_first body))

concat-slices_fuel :
    (fuel cap : ℕ) (bytes : Bytes)
    → 0 < cap
    → length bytes ≤ fuel
    → concat (slices_fuel fuel cap bytes) ≡ bytes
unfolding slices_fuel
concat-slices_fuel zero cap [] h k = refl
concat-slices_fuel zero cap (b ∷ bs) h k = absurd (omega arith)
concat-slices_fuel (suc fuel) cap [] h k = refl
concat-slices_fuel (suc fuel) cap (b ∷ bs) h k =
    rw (concat-slices_fuel fuel cap (drop cap (b ∷ bs)) h (omega (arith, length-drop cap (b ∷ bs))))
      (take-append-drop cap (b ∷ bs))

pub concat-slices : (cap : ℕ) (bytes : Bytes) → 0 < cap → concat (slices cap bytes) ≡ bytes
unfolding slices
concat-slices cap bytes h = concat-slices_fuel (length bytes) cap bytes h (omega arith)

-- What each slice is: not empty and within the cap.
abbrev pub Fits : ℕ → Bytes → Type 0
Fits cap chunk = (0 < length chunk) × (length chunk ≤ cap)

slices_fuel-Fits :
    (fuel cap : ℕ) (bytes : Bytes) → 0 < cap → All (Fits cap) (slices_fuel fuel cap bytes)
unfolding slices_fuel
slices_fuel-Fits zero cap bytes h = tt
slices_fuel-Fits (suc fuel) cap [] h = tt
slices_fuel-Fits (suc fuel) cap (b ∷ bs) h = (
  (omega (arith, length-take cap (b ∷ bs)), omega (arith, length-take cap (b ∷ bs))),
  slices_fuel-Fits fuel cap (drop cap (b ∷ bs)) h,
)

pub slices-Fits : (cap : ℕ) (bytes : Bytes) → 0 < cap → All (Fits cap) (slices cap bytes)
unfolding slices
slices-Fits cap bytes h = slices_fuel-Fits (length bytes) cap bytes h

slices_fuel-nil : (fuel cap : ℕ) → slices_fuel fuel cap [] ≡ []
unfolding slices_fuel
slices_fuel-nil zero cap = refl
slices_fuel-nil (suc fuel) cap = refl

pub slices-nil : (cap : ℕ) → slices cap [] ≡ []
unfolding slices
slices-nil cap = slices_fuel-nil 0 cap

-- What fits into one slice is one slice.
pub slices_one :
    (cap : ℕ) (b : ℕ) (bs : Bytes) → length (b ∷ bs) ≤ cap → slices cap (b ∷ bs) ≡ (b ∷ bs) ∷ []
unfolding slices slices_fuel
slices_one cap b bs h =
    rw (take_all cap (b ∷ bs) h, drop_all cap (b ∷ bs) h, slices_fuel-nil (length bs) cap)

pub split_caps_pos :
    (buffer_size : Option ℕ) (header_block_len : ℕ) (payload_max : Option ℕ) (version flags : ℕ)
    (agg_tag : Bool)
    → (0 < (split_caps buffer_size header_block_len payload_max version flags agg_tag).0)
      × (0 < (split_caps buffer_size header_block_len payload_max version flags agg_tag).1)
unfolding split_caps
split_caps_pos buffer_size header_block_len payload_max version flags agg_tag =
    ground
      (arith, calc_payload_caps_pos buffer_size header_block_len payload_max version flags true)

-- The chunks of a body make up the body again, whatever the sizes. No chunk passes its cap, and of
-- the later ones none is empty.
pub split_body_lem :
    (body : Bytes) (buffer_size : Option ℕ) (header_block_len : ℕ) (payload_max : Option ℕ)
    (version flags : ℕ) (agg_tag : Bool)
    → (let r = split_body body buffer_size header_block_len payload_max version flags agg_tag in
        let caps = split_caps buffer_size header_block_len payload_max version flags agg_tag in
        (r.0 ++ concat r.1 ≡ body) × (length r.0 ≤ caps.0) × All (Fits caps.1) r.1)
unfolding split_body
split_body_lem body buffer_size header_block_len payload_max version flags agg_tag =
    let caps = split_caps buffer_size header_block_len payload_max version flags agg_tag in
    let pos = split_caps_pos buffer_size header_block_len payload_max version flags agg_tag in
    (
      rw (concat-slices caps.1 (drop caps.0 body) pos.1) (take-append-drop caps.0 body),
      omega (arith, length-take caps.0 body),
      slices-Fits caps.1 (drop caps.0 body) pos.1,
    )
