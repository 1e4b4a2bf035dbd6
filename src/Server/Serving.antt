-- ===== src/Server/Serving.antt =====
-- The server around the handler.
use akari_proxy.Prelude.{
  true, all, List, ℕ, ◌-◌, ◌≤◌, min, max, ◌≡◌, refl, sym, Option, none, some, [], ◌∷◌, arith,
  some_inj, none≢some, length, Bytes, nat_eq, text_key,
}
use akari_proxy.Prelude.Decimal.{ℤ}
use akari_proxy.Wire.{Datagram, Packet, resp, decode}
use akari_proxy.Handler.State.{IncomingRequest}
use akari_proxy.Client.Config.{positive}
use akari_proxy.Exceptions.{ok}
use akari_proxy.Handler.State.{State}
use akari_proxy.Server.{answered, send_answer, reliable, limit_by, dynamic_payload_cap}

-- A limit of at most `payload_max`, and of at least 256 bytes unless that is less.
abbrev pub Limits : ℕ → Option ℕ → Option ℕ → Type 0
Limits payload_max mtu limit =
    (cap : ℕ) × (limit ≡ some cap)
    × (cap ≤ payload_max)
    × (min payload_max 256 ≤ cap)
    × (mtu ≡ none → cap ≡ payload_max)
    × ((m : ℕ) → mtu ≡ some m → cap ≤ max 256 (m - 120))

limit_by-Limits :
    (payload_max : ℕ) (mtu : Option ℕ) → Limits payload_max mtu (limit_by (some payload_max) mtu)
limit_by-Limits payload_max none =
    (payload_max, refl, omega arith, omega arith, λ _. refl, λ m h. absurd (none≢some h))
limit_by-Limits payload_max (some m) = (
  min payload_max (max 256 (m - 120)),
  refl,
  omega arith,
  omega arith,
  λ h. absurd (none≢some (sym h)),
  λ k h. omega (arith, some_inj h),
)

-- The limit that the server hands on is at most its own, and at most what the MTU leaves, with 256
-- bytes at least; it is its own where the socket tells no MTU.
pub dynamic_payload_cap-Limits :
    (payload_max : ℕ) (mtu : Option ℤ)
    → Limits payload_max (positive mtu) (dynamic_payload_cap (some payload_max) mtu)
unfolding dynamic_payload_cap
dynamic_payload_cap-Limits payload_max mtu = limit_by-Limits payload_max (positive mtu)

pub all-reliable : (ds : List Datagram) → all reliable ds ≡ true
all-reliable [] = refl
all-reliable (d ∷ ds) = all-reliable ds

-- A reliable socket takes the whole answer.
pub send_answer-reliable :
    (request : IncomingRequest) (datagrams : List Datagram) (s : State)
    → send_answer reliable request (ok datagrams, s) ≡ (answered request datagrams, s)
send_answer-reliable request datagrams s = rw (all-reliable datagrams) refl

-- One datagram, from which the client reads the status, the length and the body as the first of
-- `seq_total` chunks under the request's message id.
abbrev pub ReadBack : IncomingRequest → Bytes → ℕ → ℕ → List Datagram → Type 0
ReadBack request body status_code seq_total datagrams =
    (d : Datagram) × (p : Packet) × (datagrams ≡ d ∷ [])
    × (decode d ≡ some p)
    × (p.header.message_id ≡ request.header.message_id)
    × (p.payload ≡ resp 0 seq_total (some status_code) (some (length body)) none body)
