-- ===== src/Fetcher/Safety.antt =====
-- What a fetched response cannot have.
use akari_proxy.Prelude.{
  ℕ, ◌+◌, ◌≤◌, ◌≡◌, sym, ap, subst, inl, inr, true, false, not, List, [], ◌∷◌, arith, ltb,
  ltb-false→le, Bool-cases, length, is_empty, take, All, keep_yes, keep_no, length-take, take_all,
  Text, nat_eq, text_key,
}
use akari_proxy.Prelude.Str.{codes, strip, one_of}
use akari_proxy.Exceptions.{ok, ok_inj, ok≢raise, >>=-ok}
use akari_proxy.Url.{url_scheme, url_netloc}
use akari_proxy.Handler.Headers.{Headers}
use akari_proxy.Handler.State.{HttpResponse}
use akari_proxy.Fetcher.{
  is_blacklisted, strip_security_headers, normalize_url, Request, request_for, Opened, response,
  http_error, timed_out, url_timed_out, url_error, failure, receive, fetch, dict_onto,
}

stripped :
    (headers : Headers) → All (λ x. is_blacklisted x.0 ≡ false) (strip_security_headers headers)
unfolding strip_security_headers
stripped [] = tt
stripped ((key, value) ∷ headers) = elim (Bool-cases (is_blacklisted key)) [
  | inl bad ↦
      subst (All (λ x. is_blacklisted x.0 ≡ false))
        (sym (keep_no (λ x. not (is_blacklisted x.0)) (key, value) headers (ap not bad)))
        (stripped headers)
  | inr fine ↦
      subst (All (λ x. is_blacklisted x.0 ≡ false))
        (sym (keep_yes (λ x. not (is_blacklisted x.0)) (key, value) headers (ap not fine)))
        (fine, stripped headers)
]

-- What a fetch that succeeds says of the response and of the opened request.
abbrev pub Fetched : (Request → Opened) → ℕ → Text → HttpResponse → Type 0
Fetched urlopen max_bytes url found =
    (length found.body ≤ max_bytes)
    × All (λ x. is_blacklisted x.0 ≡ false) found.headers
    × ((pairs : List (Text × Text)) × (urlopen (request_for (strip url))
          ≡ response found.status_code pairs found.body))

receive-ok :
    (max_bytes : ℕ) (timeout : Text) (opened : Opened) {found : HttpResponse}
    → receive max_bytes timeout opened ≡ ok found
    → (length found.body ≤ max_bytes)
      × All (λ x. is_blacklisted x.0 ≡ false) found.headers
      × ((pairs : List (Text × Text)) × (opened ≡ response found.status_code pairs found.body))
unfolding receive
receive-ok max_bytes timeout (response status pairs whole) {found} h =
    elim (Bool-cases (ltb max_bytes (length (take (max_bytes + 1) whole)))) [
      | inl over ↦ absurd (ok≢raise (sym (rw over at h)))
      | inr fine ↦
          let small = ltb-false→le max_bytes _ fine in
          let all_read : take (max_bytes + 1) whole ≡ whole =
            take_all (max_bytes + 1) whole (omega (arith, length-take (max_bytes + 1) whole)) in
          let same = ok_inj (rw fine at h) in
          subst
            (λ (f : HttpResponse).
              (length f.body ≤ max_bytes)
              × All (λ x. is_blacklisted x.0 ≡ false) f.headers
              × ((ps : List (Text × Text)) × (response status pairs whole
                    ≡ response f.status_code ps f.body)))
            same
            (
              small,
              stripped (dict_onto [] pairs),
              (pairs, ap (response status pairs) (sym all_read)),
            )
    ]
receive-ok max_bytes timeout (http_error code reason) h = absurd (ok≢raise (sym h))
receive-ok max_bytes timeout timed_out h = absurd (ok≢raise (sym h))
receive-ok max_bytes timeout url_timed_out h = absurd (ok≢raise (sym h))
receive-ok max_bytes timeout (url_error reason) h = absurd (ok≢raise (sym h))
receive-ok max_bytes timeout (failure message) h = absurd (ok≢raise (sym h))

normalize_url-ok :
    (url : Text) {normalized : Text}
    → normalize_url url ≡ ok normalized
    → (normalized ≡ strip url)
      × (one_of (codes "http" ∷ codes "https" ∷ []) (url_scheme (strip url)) ≡ true)
      × (is_empty (url_netloc (strip url)) ≡ false)
unfolding normalize_url
normalize_url-ok url h = elim (Bool-cases (is_empty (strip url))) [
  | inl e ↦ absurd (ok≢raise (sym (rw e at h)))
  | inr e ↦
      elim (Bool-cases (one_of (codes "http" ∷ codes "https" ∷ []) (url_scheme (strip url)))) [
        | inr f ↦ absurd (ok≢raise (sym (rw (e, f) at h)))
        | inl f ↦ elim (Bool-cases (is_empty (url_netloc (strip url)))) [
          | inl g ↦ absurd (ok≢raise (sym (rw (e, f, g) at h)))
          | inr g ↦ (sym (ok_inj (rw (e, f, g) at h)), f, g)
        ]
      ]
]

-- A fetch that succeeds was of an HTTP or HTTPS URL with a host; its body is the whole body that the
-- server sent and within the limit, and none of its headers is on the blacklist.
pub fetch-Fetched :
    (urlopen : Request → Opened) (max_bytes : ℕ) (timeout url : Text) (found : HttpResponse)
    → fetch urlopen max_bytes timeout url ≡ ok found
    → Fetched urlopen max_bytes url found
      × (one_of (codes "http" ∷ codes "https" ∷ []) (url_scheme (strip url)) ≡ true)
      × (is_empty (url_netloc (strip url)) ≡ false)
unfolding fetch
fetch-Fetched urlopen max_bytes timeout url found h =
    let (normalized, e, r) =
      >>=-ok (normalize_url url) (λ u. receive max_bytes timeout (urlopen (request_for u))) h in
    let (same, scheme, host) = normalize_url-ok url e in
    (
      receive-ok max_bytes timeout (urlopen (request_for (strip url)))
          (subst (λ u. receive max_bytes timeout (urlopen (request_for u)) ≡ ok found) same r),
      scheme,
      host,
    )
