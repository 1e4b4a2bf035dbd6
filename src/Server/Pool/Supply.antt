-- ===== src/Server/Pool/Supply.antt =====
-- No session of the pool is lost.
use akari_proxy.Prelude.{
  ℕ, zero, suc, ◌+◌, ◌≤◌, ◌<◌, max, ◌≡◌, refl, sym, ap, ◌∙◌, Bool, true, false, false≢true, List,
  [], ◌∷◌, ◌++◌, arith, if◌then◌else◌, length, length-append, nat_eq, text_key,
}
use akari_proxy.Prelude.Str.{codes}
use akari_proxy.Exceptions.{Exn, runtime_error}
use akari_proxy.Server.Pool.{
  SessionPool, new_pool, start, enqueue_new, enqueue_times, start, refused, got, acquire, recycle,
  close, take_first, Lending, PoolStep, taken, returned, closing, PoolReaches, started, stepped,
}

-- As long as the pool is open, each of its sessions waits in the queue or is out.
Balanced : ℕ → Lending → Type 0
Balanced size s = s.pool.closed ≡ false → length s.pool.queue + length s.lent ≡ max 1 size

-- What holds of a pool with one session more is what holds after a session was made.
enqueue_new-open :
    (pool : SessionPool)
    → pool.closed ≡ false
    → enqueue_new pool
      ≡ record pool { queue = pool.queue ++ (pool.next ∷ []); next = suc pool.next }
unfolding enqueue_new
enqueue_new-open pool h =
    ap
      (λ b.
        if b
        then pool
        else record pool { queue = pool.queue ++ (pool.next ∷ []); next = suc pool.next })
      h

enqueue_new-length :
    (pool : SessionPool)
    → pool.closed ≡ false
    → ((enqueue_new pool).closed ≡ false)
      × (length (enqueue_new pool).queue ≡ suc (length pool.queue))
enqueue_new-length pool h = (
  ap (λ p. p.closed) (enqueue_new-open pool h) ∙ h,
  ap (λ p. length p.queue) (enqueue_new-open pool h)
      ∙ length-append pool.queue (pool.next ∷ [])
      ∙ omega arith,
)

enqueue_times-length :
    (n : ℕ) (pool : SessionPool)
    → pool.closed ≡ false
    → ((enqueue_times n pool).closed ≡ false)
      × (length (enqueue_times n pool).queue ≡ length pool.queue + n)
unfolding enqueue_times
enqueue_times-length zero pool h = (h, omega arith)
enqueue_times-length (suc n) pool h =
    let (still, longer) = enqueue_new-length pool h in
    let (kept, total) = enqueue_times-length n (enqueue_new pool) still in
    (kept, omega (arith, total, longer))

got_inj : {a b : ℕ} {p q : SessionPool} → got a p ≡ got b q → p ≡ q
got_inj h = cc

from_queue :
    (pool after : SessionPool) (session : ℕ) (queue : List ℕ)
    → pool.queue ≡ queue
    → take_first pool queue ≡ got session after
    → length pool.queue ≡ suc (length after.queue)
from_queue pool after session [] h e = cc
from_queue pool after session (first ∷ rest) h e =
    ap length h ∙ ap (λ p. suc (length p.queue)) (got_inj e)

acquire-open :
    (pool : SessionPool) → pool.closed ≡ false → acquire pool ≡ take_first pool pool.queue
unfolding acquire
acquire-open pool h =
    ap
      (λ b.
        if b
        then refused (runtime_error (codes "session pool is closed"))
        else take_first pool pool.queue)
      h

gotten :
    (x : Exn) (b : Bool) (pool after : SessionPool) (session : ℕ) (queue : List ℕ)
    → (if b then refused x else take_first pool queue) ≡ got session after
    → pool.closed ≡ after.closed
gotten x true pool after session queue e = cc
gotten x false pool after session [] e = cc
gotten x false pool after session (first ∷ rest) e = ap (λ p. p.closed) (got_inj e)

-- A session that is taken comes from an open pool.
taken-open :
    (pool after : SessionPool) (session : ℕ)
    → acquire pool ≡ got session after
    → pool.closed ≡ after.closed
unfolding acquire
taken-open pool after session e = gotten _ pool.closed pool after session pool.queue e

recycle-length :
    (session : ℕ) (broken : Bool) (pool : SessionPool)
    → pool.closed ≡ false
    → length (recycle session broken pool).queue ≡ suc (length pool.queue)
unfolding recycle
recycle-length session true pool h =
    ap
      (λ b.
        length (if b then record pool { shut = session ∷ pool.shut } else enqueue_new pool).queue)
      h
    ∙ (enqueue_new-length pool h).1
recycle-length session false pool h =
    ap
      (λ b.
        length
          (if b
            then record pool { shut = session ∷ pool.shut }
            else record pool { queue = pool.queue ++ (session ∷ []) }).queue)
      h
    ∙ length-append pool.queue (session ∷ [])
    ∙ omega arith

either :
    (b c : Bool) (p q : SessionPool) → p.closed ≡ c → q.closed ≡ c → (if b then p else q).closed ≡ c
either true c p q h k = h
either false c p q h k = k

-- No session that comes back opens the pool.
recycle-closed :
    (session : ℕ) (broken : Bool) (pool : SessionPool)
    → (recycle session broken pool).closed ≡ pool.closed
unfolding recycle enqueue_new
recycle-closed session true pool =
    either pool.closed _ _ _ refl (either pool.closed _ _ _ refl refl)
recycle-closed session false pool = either pool.closed _ _ _ refl refl

step-Balanced : (size : ℕ) {s t : Lending} → PoolStep s t → Balanced size s → Balanced size t
unfolding Balanced close
step-Balanced size (taken {pool} {after} {lent} {session} e) h still =
    let h' = taken-open pool after session e ∙ still in
    let shorter = from_queue pool after session pool.queue refl (sym (acquire-open pool h') ∙ e) in
    omega (arith, h h', shorter)
step-Balanced size (returned {pool} earlier later session broken) h still =
    let h' = sym (recycle-closed session broken pool) ∙ still in
    let longer = recycle-length session broken pool h' in
    omega
      (arith, h h', longer, length-append earlier (session ∷ later), length-append earlier later)
step-Balanced size (closing {pool} {lent}) h still = absurd (false≢true (sym still))

reaches-Balanced : (size : ℕ) {s : Lending} → PoolReaches size s → Balanced size s
unfolding Balanced start new_pool
reaches-Balanced size started still =
    let (kept, total) = enqueue_times-length (max 1 size) (new_pool size) refl in
    omega (arith, total)
reaches-Balanced size (stepped before step) still =
    step-Balanced size step (reaches-Balanced size before) still

available :
    (pool : SessionPool) (queue : List ℕ)
    → 1 ≤ length queue
    → (session : ℕ) × (after : SessionPool) × (take_first pool queue ≡ got session after)
available pool [] h = absurd (omega (arith, h))
available pool (session ∷ rest) h = (session, _, refl)

-- As long as an open pool has lent fewer sessions than its size, a fetch gets one at once: whatever was
-- taken and came back before, closed sessions included, none is lost.
pub acquire-got :
    (size : ℕ) (s : Lending)
    → PoolReaches size s
    → s.pool.closed ≡ false
    → length s.lent < max 1 size
    → (session : ℕ) × (after : SessionPool) × (acquire s.pool ≡ got session after)
acquire-got size s reached h fewer =
    let balance : length s.pool.queue + length s.lent ≡ max 1 size =
      unfold Balanced in reaches-Balanced size reached h in
    let (session, after, e) = available s.pool s.pool.queue (omega (arith, balance, fewer)) in
    (session, after, acquire-open s.pool h ∙ e)
