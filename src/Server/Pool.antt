-- ===== src/Server/Pool.antt =====
-- `ReusableSessionPool` of py/akari/remote_proxy/async_server.py, and the fetch that goes through it.
-- A session is the number that it was made with; aiohttp is taken to be installed.
pub mod Supply
use akari_proxy.Prelude.{
  ℕ, zero, suc, ◌+◌, max, ◌≡◌, Bool, true, false, Option, none, some, List, [], ◌∷◌, ◌++◌,
  if◌then◌else◌, Text, nat_eq, text_key,
}
use akari_proxy.Exceptions.{Exn, Result, raise, runtime_error}
use akari_proxy.Prelude.Str.{codes}
use akari_proxy.Handler.State.{HttpResponse}

-- `next` counts the sessions made, and `shut` holds those that the pool closed.
pub record SessionPool : Type 0 where
  pub size : ℕ
  pub queue : List ℕ
  pub closed : Bool
  pub next : ℕ
  pub shut : List ℕ

unfoldable pub new_pool : ℕ → SessionPool
new_pool size = record { size = max 1 size; queue = []; closed = false; next = 0; shut = [] }

unfoldable pub enqueue_new : SessionPool → SessionPool
enqueue_new pool =
    if pool.closed
    then pool
    else record pool { queue = pool.queue ++ (pool.next ∷ []); next = suc pool.next }

-- `for _ in range(n): await self._enqueue_new()`
unfoldable pub enqueue_times : ℕ → SessionPool → SessionPool
unfolding enqueue_new
enqueue_times zero pool = pool
enqueue_times (suc n) pool = enqueue_times n (enqueue_new pool)

unfoldable pub start : SessionPool → SessionPool
unfolding enqueue_times
start pool = enqueue_times pool.size pool

-- `acquire` raises on a closed pool, waits on an empty queue, or takes the first session.
pub data Acquired : Type 0 where
  refused : Exn → Acquired
  waits : Acquired
  got : ℕ → SessionPool → Acquired

abbrev pub take_first : SessionPool → List ℕ → Acquired
take_first pool [] = waits
take_first pool (session ∷ rest) = got session (record pool { queue = rest })

unfoldable pub acquire : SessionPool → Acquired
acquire pool =
    if pool.closed
    then refused (runtime_error (codes "session pool is closed"))
    else take_first pool pool.queue

-- `broken` is `session.closed`.
unfoldable pub recycle : ℕ → Bool → SessionPool → SessionPool
unfolding enqueue_new
recycle session broken pool =
    if pool.closed
    then record pool { shut = session ∷ pool.shut }
    else if broken
    then enqueue_new pool
    else record pool { queue = pool.queue ++ (session ∷ []) }

-- The pool after `close`, which goes on when a session fails to close.
unfoldable pub close : SessionPool → SessionPool
close pool = record pool { closed = true; queue = []; shut = pool.queue ++ pool.shut }

-- A pool and the sessions that are out.
pub record Lending : Type 0 where
  pub pool : SessionPool
  pub lent : List ℕ

-- What happens to a pool: a session is taken, or one comes back wherever it stands among those that are
-- out, or the pool is closed.
pub data PoolStep : Lending → Lending → Type 0 where
  taken :
      {pool after : SessionPool} {lent : List ℕ} {session : ℕ}
      → acquire pool ≡ got session after
      → PoolStep
          (record { pool = pool; lent = lent })
          (record { pool = after; lent = session ∷ lent })
  returned :
      {pool : SessionPool} (earlier later : List ℕ) (session : ℕ) (broken : Bool)
      → PoolStep
          (record { pool = pool; lent = earlier ++ session ∷ later })
          (record { pool = recycle session broken pool; lent = earlier ++ later })
  closing :
      {pool : SessionPool} {lent : List ℕ}
      → PoolStep (record { pool = pool; lent = lent }) (record { pool = close pool; lent = lent })

-- What a pool of some size comes to after its start.
pub data PoolReaches (size : ℕ) : Lending → Type 0 where
  started : PoolReaches size (record { pool = start (new_pool size); lent = [] })
  stepped :
      {before after : Lending}
      → PoolReaches size before
      → PoolStep before after
      → PoolReaches size after

-- `pooled_fetch_async`: the session goes back whether the fetch raises or not; `none` waits. `fetch`
-- says how the fetch ends and whether the session is closed then.
unfoldable pub pooled_fetch :
    (ℕ → Text → Result HttpResponse × Bool)
    → Text
    → SessionPool
    → Option (Result HttpResponse × SessionPool)
unfolding acquire recycle
pooled_fetch fetch url pool = elim (acquire pool) [
  | refused e ↦ some (raise e, pool)
  | waits ↦ none
  | got session rest ↦
      let (result, broken) = fetch session url in some (result, recycle session broken rest)
]
