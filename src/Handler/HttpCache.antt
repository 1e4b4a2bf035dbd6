-- ===== src/Handler/HttpCache.antt =====
-- The cache of fetched responses: `_cache_ttl_from_headers`, `_purge_http_cache`,
-- `_get_cached_http_response` and `_maybe_store_http_cache`. (`_clone_response` copies a value that
-- nothing here can change.)
pub mod Freshness
use akari_proxy.Prelude.{
  ℕ, zero, suc, ◌+◌, ◌-◌, ◌*◌, not, Option, none, some, List, [], ◌∷◌, map, leb, if◌then◌else◌,
  is_some, or_else, is_empty, drop, any, keep, Text, text_eq, nat_eq, text_key,
}
use akari_proxy.Prelude.Decimal.{ℤ, pos, negsuc, parse_int}
use akari_proxy.Prelude.Dict.{get, put, pop}
use akari_proxy.Prelude.Str.{codes, strip, split, starts_with, one_of}
use akari_proxy.Handler.Headers.{Headers, lower_keys}
use akari_proxy.Handler.State.{HttpResponse, State, second, http_cache_default_ttl}

-- `[directive.strip() for directive in cache_control.split(",") if directive.strip()]`
unfoldable pub directives_of : Text → List Text
directives_of cache_control = keep (λ d. not (is_empty d)) (map strip (split b',' cache_control))

-- The part behind `max-age=`, where a directive starts so.
abbrev max_age_of : Text → Option ℤ
max_age_of directive =
    if starts_with directive (codes "max-age=") then parse_int (drop 8 directive) else none

-- The loop over the directives: `none` if it runs through, else what it returns.
max_age_loop : List Text → Option (Option ℕ)
max_age_loop [] = none
max_age_loop (directive ∷ directives) =
    let later = max_age_loop directives in
    elim (max_age_of directive) [
      | none ↦ later
      | some (pos zero) ↦ some none
      | some (pos (suc n)) ↦ some (some (suc n * second))
      | some (negsuc n) ↦ some none
    ]

-- How long a response may be kept; `none` where it must not be.
unfoldable pub cache_ttl_from_headers : Headers → Option ℕ
unfolding max_age_loop
cache_ttl_from_headers headers =
    let normalized_headers = lower_keys headers in
    let directives = directives_of (or_else (get normalized_headers (codes "cache-control")) []) in
    if any (one_of (codes "no-store" ∷ codes "no-cache" ∷ [])) directives
    then none
    else if any (text_eq (codes "private")) directives
    then none
    else elim (max_age_loop directives) [
      | some ttl ↦ ttl
      | none ↦
          if is_some (get normalized_headers (codes "set-cookie"))
          then none
          else some http_cache_default_ttl
    ]

unfoldable pub purge_http_cache : ℕ → State → State
purge_http_cache now s = record s { http_cache = keep (λ e. not (leb e.1.0 now)) s.http_cache }

-- What is done with the entry that is found for the URL.
abbrev pub serve_entry : Text → ℕ → State → Option (ℕ × HttpResponse) → Option HttpResponse × State
serve_entry url now s none = (none, s)
serve_entry url now s (some (expires_at, response)) =
    if leb expires_at now
    then (none, record s { http_cache = pop s.http_cache url })
    else (some response, s)

-- The response, and the cache without it if it has expired.
unfoldable pub get_cached_http_response : Text → ℕ → State → Option HttpResponse × State
get_cached_http_response url now s = serve_entry url now s (get s.http_cache url)

unfoldable pub maybe_store_http_cache : Text → HttpResponse → ℕ → State → State
unfolding purge_http_cache
maybe_store_http_cache url response now s =
    if leb 500 response.status_code then s else elim (cache_ttl_from_headers response.headers) [
      | none ↦ s
      | some ttl ↦
          purge_http_cache now
            (record s { http_cache = put s.http_cache url (now + ttl, response) })
    ]
