-- ===== src/Client/Loop/Budget/Counters.antt =====
-- The counters of the client, and that a datagram more keeps them right.
use akari_proxy.Prelude.{
  Bool, false, if◌then◌else◌, ℕ, ◌+◌, ◌⊎◌, ◌-◌, ◌≤◌, ◌≡◌, true, Option, none, some, List, [], ◌∷◌,
  ◌++◌, arith, ltb, length, length-append, nat_eq, text_key,
}
use akari_proxy.Wire.{Datagram, wire_len, ack_v2, nack_v2, nack_head_v3, nack_body_v3}
use akari_proxy.Client.Config.{ClientConfig}
use akari_proxy.Client.Exchange.{Exchange, Request, Step, again, done, allow_nack}

abbrev pub total_len : List Datagram → ℕ
total_len [] = 0
total_len (d ∷ ds) = wire_len d + total_len ds

total_len-append : (ds es : List Datagram) → total_len (ds ++ es) ≡ total_len ds + total_len es
total_len-append [] es = omega arith
total_len-append (d ∷ ds) es = omega (arith, total_len-append ds es)

abbrev pub is_nack : Datagram → Bool
is_nack (nack_v2 bitmap message_id timestamp psk) = true
is_nack (nack_head_v3 bitmap message_id flags psk) = true
is_nack (nack_body_v3 bitmap message_id flags psk) = true
is_nack d = false

abbrev pub is_ack : Datagram → Bool
is_ack (ack_v2 first message_id timestamp psk) = true
is_ack d = false

abbrev pub one_if : Bool → ℕ
one_if b = if b then 1 else 0

abbrev pub count : (Datagram → Bool) → List Datagram → ℕ
count p [] = 0
count p (d ∷ ds) = one_if (p d) + count p ds

count-append :
    (p : Datagram → Bool) (ds : List Datagram) (d : Datagram)
    → count p (ds ++ (d ∷ [])) ≡ count p ds + one_if (p d)
count-append p [] d = omega arith
count-append p (e ∷ ds) d = omega (arith, count-append p ds d)

-- `n` is within the limit, if there is one.
abbrev pub AtMost : Option ℕ → ℕ → Type 0
AtMost none n = Unit {0}
AtMost (some m) n = n ≤ m

-- The counters of the client say what was sent and are within its limits.
pub record Accounts (config : ClientConfig) (sent : List Datagram) (bytes nacks acks retries : ℕ)
    : Type 0 where
  pub bytes_add_up : bytes ≡ total_len sent
  pub numbers_add_up : length sent ≡ 1 + nacks + acks + retries
  pub nacks_counted : count is_nack sent ≡ nacks
  pub acks_counted : count is_ack sent ≡ acks
  pub nacks_fit : AtMost config.max_nack_rounds nacks
  pub acks_fit : acks ≤ config.max_ack_rounds
  pub retries_fit : retries ≤ config.initial_request_retries

pub record Accounted (config : ClientConfig) (st : Exchange) : Type 0 where
  pub left : st.req_retries_left ≤ config.initial_request_retries
  pub accounts :
      Accounts config st.sent st.bytes_sent st.nacks_sent st.acks_sent
        (config.initial_request_retries - st.req_retries_left)

-- What is sent in the turn that ends: nothing, or an ACK.
abbrev pub Extends : ClientConfig → Request → List Datagram → List Datagram → Type 0
Extends config request before sent =
    (sent ≡ before)
    ⊎ ((i : ℕ) × (sent ≡ before ++ (ack_v2 i request.message_id request.timestamp config.psk ∷ [])))

-- The same for how a turn of the loop ends, before which `before` was sent.
abbrev pub AccountedStep : ClientConfig → Request → List Datagram → Step → Type 0
AccountedStep config request before (again st) = Accounted config st
AccountedStep config request before (done outcome) =
    (sent : List Datagram) × (acks : ℕ) × Extends config request before sent
    × Accounts config sent outcome.bytes_sent outcome.nacks_sent acks outcome.request_retries

pub send-Accounts :
    (config : ClientConfig) (d : Datagram) (sent : List Datagram)
    (bytes nacks acks retries nacks' acks' retries' : ℕ)
    → Accounts config sent bytes nacks acks retries
    → nacks' + acks' + retries' ≡ 1 + nacks + acks + retries
    → nacks' ≡ nacks + one_if (is_nack d)
    → acks' ≡ acks + one_if (is_ack d)
    → AtMost config.max_nack_rounds nacks'
    → acks' ≤ config.max_ack_rounds
    → retries' ≤ config.initial_request_retries
    → Accounts config (sent ++ (d ∷ [])) (bytes + wire_len d) nacks' acks' retries'
send-Accounts config d sent bytes nacks acks retries nacks' acks' retries' a e u v n k r = record {
  bytes_add_up = omega (arith, a.bytes_add_up, total_len-append sent (d ∷ []));
  numbers_add_up = omega (arith, a.numbers_add_up, length-append sent (d ∷ []));
  nacks_counted = omega (arith, a.nacks_counted, count-append is_nack sent d, u);
  acks_counted = omega (arith, a.acks_counted, count-append is_ack sent d, v);
  nacks_fit = n;
  acks_fit = k;
  retries_fit = r;
}

pub allowed :
    (config : ClientConfig) (st : Exchange)
    → allow_nack config st ≡ true
    → AtMost config.max_nack_rounds (st.nacks_sent + 1)
unfolding allow_nack
allowed config st h = at_most config.max_nack_rounds h
  where
    at_most :
        (limit : Option ℕ)
        → elim limit [ none ↦ true | some rounds ↦ ltb st.nacks_sent rounds ] ≡ true
        → AtMost limit (st.nacks_sent + 1)
    at_most none h = tt
    at_most (some rounds) h = ground arith
