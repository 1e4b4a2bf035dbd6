-- ===== src/Router/Ids.antt =====
-- `_next_message_id`: the counter of the message ids.
use akari_proxy.Prelude.{
  ℕ, zero, suc, ◌+◌, ◌-◌, ◌%◌, ◌^◌, ◌<◌, ◌≡◌, ◌≢◌, arith, ◌==◌, if◌then◌else◌, nat_eq, text_key,
}

-- The counter's next value, which is also the message id.
unfoldable pub next_message_id : ℕ → ℕ
next_message_id counter = let next = (counter + 1) % 2 ^ 32 in if next == 0 then 1 else next

-- The ids of `n` requests on end.
abbrev pub after : ℕ → ℕ → ℕ
after zero counter = counter
after (suc n) counter = next_message_id (after n counter)

-- Whatever the counter, a message id fits 32 bits and is not 0.
pub next_message_id-range :
    (counter : ℕ) → (0 < next_message_id counter) × (next_message_id counter < 2 ^ 32)
unfolding next_message_id
next_message_id-range counter = ground arith

after-closed :
    (n counter : ℕ)
    → 0 < counter
    → counter < 2 ^ 32
    → after n counter ≡ (counter - 1 + n) % (2 ^ 32 - 1) + 1
unfolding next_message_id
after-closed zero counter h k = omega arith
after-closed (suc n) counter h k = ground (arith, after-closed n counter h k)

-- Among fewer than 2³² - 1 message ids on end no two are the same, wrap-around included.
pub after-distinct :
    (counter m n : ℕ)
    → 0 < counter
    → counter < 2 ^ 32
    → m < n
    → n < m + (2 ^ 32 - 1)
    → after m counter ≢ after n counter
after-distinct counter m n h k l r e =
    omega (arith, after-closed m counter h k, after-closed n counter h k, e)
