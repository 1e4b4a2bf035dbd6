-- ===== src/Handler/Requests/Answers.antt =====
-- What `handle_request` answers, branch by branch.
use akari_proxy.Prelude.{
  ℕ, ◌<◌, ◌≡◌, refl, ◌⊎◌, true, false, not, none, some, ◌∷◌, arith, leb, Text, Bytes, nat_eq,
  text_key,
}
use akari_proxy.Exceptions.{Exn, Result, ok}
use akari_proxy.Prelude.Dict.{get-keep-none, get, get-keep}
use akari_proxy.Prelude.Str.{codes, strip}
use akari_proxy.Wire.{req}
use akari_proxy.Handler.State.{IncomingRequest, HttpResponse, State, Clock}
use akari_proxy.Handler.Respond.{too_large}
use akari_proxy.Handler.Respond.Legacy.{Refused, legacy_count}
use akari_proxy.Handler.Respond.Shape.{chunk_count}
use akari_proxy.Handler.HttpCache.{purge_http_cache, get_cached_http_response}
use akari_proxy.Handler.Requests.{
  answer_fetched, answer_result, answer_url, answer_req, dispatch, handle_request,
}

module _ (hmac_sha256 : Bytes → Bytes → Bytes) where
  -- What escapes the handler: BodyTooLargeError of the v3 encoder for more than 65535 body packets, or
  -- before v3 what the native encoders refuse.
  abbrev pub Escapes : IncomingRequest → Exn → Type 0
  Escapes request e =
      ((leb 3 request.header.version ≡ true)
        × ((response : HttpResponse) × (0xffff < chunk_count request response.body)
            × (e
                ≡ too_large (codes "body requires") (chunk_count request response.body)
                    (codes "65535") request)))
      ⊎ ((leb 3 request.header.version ≡ false)
          × ((response : HttpResponse) × (block : Bytes) × Refused response
                (legacy_count request response block) e))

  module _ (fetch : Text → Result HttpResponse) where
    pub handle_request-miss :
        (request : IncomingRequest) (c : ℕ) (url : Text) (response : HttpResponse) (clock : Clock)
        (s : State)
        → request.payload ≡ req (c ∷ url)
        → s.require_encryption ≡ false
        → get s.http_cache (strip (c ∷ url)) ≡ none
        → fetch (strip (c ∷ url)) ≡ ok response
        → handle_request hmac_sha256 fetch request clock s
          ≡ answer_result hmac_sha256 fetch request
              (strip (c ∷ url))
              clock
              (purge_http_cache clock.at_start s)
              (ok response)
    unfolding handle_request dispatch answer_req answer_url answer_fetched get_cached_http_response
        purge_http_cache
    handle_request-miss request c url response clock s p r miss f =
        let gone =
          get-keep-none (λ e. not (leb e.1.0 clock.at_start)) s.http_cache (strip (c ∷ url)) miss in
        rw (p, r, gone, f) refl

  -- While the cache holds a response that has not expired, a request for its URL is answered without
  -- the fetch: any two fetches give the same answer and the same state.
  pub cached_without_fetch :
      (fetch other : Text → Result HttpResponse) (request : IncomingRequest) (c : ℕ) (url : Text)
      (clock : Clock) (s : State) (expires_at : ℕ) (response : HttpResponse)
      → request.payload ≡ req (c ∷ url)
      → get s.http_cache (strip (c ∷ url)) ≡ some (expires_at, response)
      → clock.at_start < expires_at
      → handle_request hmac_sha256 fetch request clock s
        ≡ handle_request hmac_sha256 other request clock s
  unfolding handle_request dispatch answer_req answer_url get_cached_http_response purge_http_cache
  cached_without_fetch fetch other request c url clock s expires_at response p e l =
      let fresh : leb expires_at clock.at_start ≡ false = ground arith in
      let kept =
        get-keep (λ x. not (leb x.1.0 clock.at_start)) s.http_cache (strip (c ∷ url)) e
          (ground (arith, fresh)) in
      rw (p, kept, fresh) refl
