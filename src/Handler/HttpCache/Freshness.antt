-- ===== src/Handler/HttpCache/Freshness.antt =====
-- What the cache of responses serves, and what it never keeps.
use akari_proxy.Prelude.{
  ℕ, ◌+◌, ◌≤◌, ◌<◌, ◌≡◌, refl, ap, ◌∙◌, inl, inr, false, not, Option, none, some, arith, leb,
  Bool-cases, some_inj, none≢some, keep, Text, text_eq_self, nat_eq, text_key,
}
use akari_proxy.Prelude.Dict.{Dict, get, put, get-put, get-keep}
use akari_proxy.Handler.State.{HttpResponse, State}
use akari_proxy.Handler.HttpCache.{
  cache_ttl_from_headers, purge_http_cache, serve_entry, get_cached_http_response,
  maybe_store_http_cache,
}

served_entry :
    (url : Text) (now : ℕ) (s : State) (response : HttpResponse) (entry : Option (ℕ × HttpResponse))
    → (serve_entry url now s entry).0 ≡ some response
    → (expires_at : ℕ) × (entry ≡ some (expires_at, response)) × (now < expires_at)
served_entry url now s response none h = absurd (none≢some h)
served_entry url now s response (some (expires_at, found)) h =
    elim (Bool-cases (leb expires_at now)) [
      | inl old ↦ absurd (none≢some (rw old at h))
      | inr fresh ↦ (
        expires_at,
        ap (λ r. some (expires_at, r)) (some_inj (rw fresh at h)),
        ground (arith, fresh),
      )
    ]

-- A response that the cache serves has not expired.
pub served_fresh :
    (url : Text) (now : ℕ) (s : State) (response : HttpResponse)
    → (get_cached_http_response url now s).0 ≡ some response
    → (expires_at : ℕ) × (get s.http_cache url ≡ some (expires_at, response)) × (now < expires_at)
unfolding get_cached_http_response
served_fresh url now s response h = served_entry url now s response (get s.http_cache url) h

serve_fresh :
    (url : Text) (now : ℕ) (s : State) (expires_at : ℕ) (response : HttpResponse)
    → leb expires_at now ≡ false
    → (serve_entry url now s (some (expires_at, response))).0 ≡ some response
serve_fresh url now s expires_at response h = rw h refl

maybe_store :
    (url : Text) (response : HttpResponse) (now ttl : ℕ) (s : State)
    → leb 500 response.status_code ≡ false
    → cache_ttl_from_headers response.headers ≡ some ttl
    → maybe_store_http_cache url response now s
      ≡ purge_http_cache now (record s { http_cache = put s.http_cache url (now + ttl, response) })
unfolding maybe_store_http_cache
maybe_store url response now ttl s small e = rw (small, e) refl

-- A stored response is served until its time is over.
pub stored_served :
    (url : Text) (response : HttpResponse) (now ttl later : ℕ) (s : State)
    → response.status_code < 500
    → cache_ttl_from_headers response.headers ≡ some ttl
    → now ≤ later
    → later < now + ttl
    → (get_cached_http_response url later
        (purge_http_cache later (maybe_store_http_cache url response now s))).0
      ≡ some response
unfolding get_cached_http_response purge_http_cache
stored_served url response now ttl later s status e l k =
    let d : Dict Text (ℕ × HttpResponse) = put s.http_cache url (now + ttl, response) in
    let stored : get d url ≡ some (now + ttl, response) =
      get-put s.http_cache url url (now + ttl, response) ∙ rw (text_eq_self url) refl in
    let kept = get-keep (λ x. not (leb x.1.0 now)) d url stored (ground arith) in
    let fresh =
      get-keep (λ x. not (leb x.1.0 later)) (keep (λ x. not (leb x.1.0 now)) d) url kept
        (ground arith) in
    let not_old : leb (now + ttl) later ≡ false = ground arith in
    let stores : maybe_store_http_cache url response now s
        ≡ purge_http_cache now (record s { http_cache = d }) =
      maybe_store url response now ttl s (ground arith) e in
    ap (λ (st : State). (get_cached_http_response url later (purge_http_cache later st)).0) stores
    ∙ ap
        (λ entry.
          (serve_entry url later
            (purge_http_cache later (purge_http_cache now (record s { http_cache = d }))) entry).0)
        fresh
    ∙ serve_fresh url later _ (now + ttl) response not_old
