-- ===== src/Browsing.antt =====
-- A link of a page from the browser to the fetched page: router.py, udp_client.py, udp_server.py and
-- handler.py together.
use akari_proxy.Prelude.{
  ℕ, suc, ◌≤◌, ◌<◌, ◌≡◌, refl, ap, ◌∙◌, true, false, Option, none, List, [], ◌∷◌, ◌++◌, map, leb,
  is_some, All, Text, Bytes, nat_eq, text_key,
}
use akari_proxy.Prelude.Dict.{Dict, get}
use akari_proxy.Prelude.Decimal.{ℤ}
use akari_proxy.Prelude.Str.{codes, strip, starts_with}
use akari_proxy.Exceptions.{Result, ok, raise, other_error}
use akari_proxy.Utf8.{IsScalar}
use akari_proxy.Url.Percent.{is_unreserved}
use akari_proxy.Handler.Headers.{Headers, shrink_headers, order_headers}
use akari_proxy.Handler.State.{IncomingRequest, HttpResponse, State, Clock}
use akari_proxy.Handler.Respond.Shape.{chunk_count}
use akari_proxy.Handler.Requests.{handle_request}
use akari_proxy.Server.{
  reliable, AkariUdpServer, Served, answered, datagram, request_of, handle_next,
}
use akari_proxy.Client.Headers.RoundTrip.{IsText, collect}
use akari_proxy.Client.Config.{ClientConfig}
use akari_proxy.Client.Exchange.{ResponseOutcome, Request, Step, again, done, make_request, start}
use akari_proxy.Client.Loop.{run}
use akari_proxy.Client.Loop.Arrivals.{parsed, arrival, coming_later, Delivered}
use akari_proxy.Fetching.{request_packet, page_arrives}
use akari_proxy.ContentFilter.{ContentFilterSettings, blocked, evaluate}
use akari_proxy.Router.Parameters.{is_http, has_enc_cookie, normalize_user_input}
use akari_proxy.Router.Proxy.{shapes, fetch_via_udp, proxy_target, execute_proxy}
use akari_proxy.Router.Proxy.Soundness.{IsGood, answer_outcome-good}
use akari_proxy.Router.Links.{proxy_base, to_proxy_url}
use akari_proxy.Router.Shaping.{raw_response}
use akari_proxy.Router.Site.{Site, rewrite, shape, proxied, handle_get}
use akari_proxy.Router.Site.Followed.{proxy_link_followed}

-- The remote proxy as one request of a client finds it, and how its answer travels: the head packet
-- comes at `now`, then the packets that `order` numbers, at their times.
pub record Network : Type 0 where
  pub hmac_sha256 : Bytes → Bytes → Bytes
  pub fetch : Text → Result HttpResponse
  pub server : AkariUdpServer
  pub mtu : Option ℤ
  pub clock : Clock
  pub store : State
  pub config : ClientConfig
  pub message_id : ℕ
  pub timestamp : ℕ
  pub began : ℕ
  pub now : ℕ
  pub order : List (ℕ × ℕ)

abbrev pub request_to : Network → Text → Request
request_to n url = make_request n.config url n.message_id n.timestamp none

-- What the client returns; a loop that still waits has no result.
abbrev heard : Result Step → Result ResponseOutcome
heard (raise e) = raise e
heard (ok (again st)) = raise (other_error (codes "no more datagrams"))
heard (ok (done outcome)) = ok outcome

-- The client on the answer of the server, if there is one.
abbrev exchanged : Network → Text → Served × State → Result ResponseOutcome
exchanged n url (answered request answer, s) = heard (
    run n.hmac_sha256 n.config (request_to n url) (map (arrival answer) ((0, n.now) ∷ n.order))
      (start n.config (request_to n url) n.began))
exchanged n url (other, s) = raise (other_error (codes "no answer"))

-- `send_request` over the network.
unfoldable pub send_over : Network → Text → Result ResponseOutcome
send_over n url = exchanged n url (
    handle_next n.server n.mtu reliable (λ r. handle_request n.hmac_sha256 n.fetch r n.clock)
      (datagram (parsed (request_to n url).datagram)) n.store)

fetched :
    (send_request : Text → Result ResponseOutcome) (url : Text) (outcome : ResponseOutcome)
    → is_http url ≡ true
    → send_request url ≡ ok outcome
    → fetch_via_udp send_request url ≡ ok outcome
unfolding fetch_via_udp
fetched send_request url outcome http sent = rw (http, sent) refl

-- A good outcome for a URL that passes the filter is handed on.
good_outcome :
    (settings : ContentFilterSettings) (send_request : Text → Result ResponseOutcome) (c : ℕ)
    (url : Text) (outcome : ResponseOutcome)
    → is_http (c ∷ url) ≡ true
    → blocked (evaluate settings (c ∷ url)) ≡ false
    → send_request (c ∷ url) ≡ ok outcome
    → IsGood outcome
    → execute_proxy settings send_request (c ∷ url) false ≡ shapes (c ∷ url) outcome
unfolding execute_proxy normalize_user_input proxy_target
good_outcome settings send_request c url outcome http passes sent good =
    rw (http, passes, fetched send_request (c ∷ url) outcome http sent)
      (answer_outcome-good (c ∷ url) outcome good)

good :
    {response : HttpResponse} {headers : Headers} {outcome : ResponseOutcome}
    → Delivered response headers outcome
    → IsGood outcome
good d = (d.no_error, d.in_time, d.complete, ap is_some d.body)

module _ (n : Network) (site : Site) (settings : ContentFilterSettings) (headers : Dict Text Text)
    (c : ℕ) (url : Text) (response : HttpResponse) where
  abbrev request : IncomingRequest
  request = request_of n.server n.mtu (request_packet (c ∷ url) n.message_id n.timestamp)

  -- A page has a link to an absolute HTTP or HTTPS URL that is none of the proxy's own and that the
  -- filter lets pass; the browser has no cookie that asks for encryption. The link becomes a path of the
  -- proxy. A GET of it, where the router's client of version 3 asks a server with the same key over the
  -- network, whose socket takes every datagram, whose cache does not hold the URL and whose fetch gives a response of at most 65535 body
  -- packets, shows that response as `_raw_response` shapes it: the outcome has its status, its whole body
  -- and those headers that the answer took. The head packet comes first and then all body packets, in
  -- any order and repeated at will; headers are texts that UTF-8 can hold, and the proxy's host has
  -- letters, digits and `_.-~` only.
  pub link_shows_page :
      (source : Text)
      → All (λ d. is_unreserved d ≡ true) site.listen_host
      → All IsScalar (c ∷ url)
      → is_http (c ∷ url) ≡ true
      → starts_with (c ∷ url) (proxy_base site.listen_host site.listen_port) ≡ false
      → has_enc_cookie headers ≡ false
      → blocked (evaluate settings (c ∷ url)) ≡ false
      → site.send_request false (c ∷ url) ≡ send_over n (c ∷ url)
      → leb 3 n.config.version ≡ true
      → n.config.use_encryption ≡ false
      → n.config.short_id ≡ false
      → n.config.psk ≡ n.server.psk
      → n.store.require_encryption ≡ false
      → get n.store.http_cache (strip (c ∷ url)) ≡ none
      → n.fetch (strip (c ∷ url)) ≡ ok response
      → All IsText (order_headers (shrink_headers 256 response.headers))
      → leb (chunk_count request response.body) 0xffff ≡ true
      → All (λ x. x.0 ≤ chunk_count request response.body) n.order
      → ((i : ℕ) → i < chunk_count request response.body → coming_later (suc i) n.order ≡ true)
      → let base = proxy_base site.listen_host site.listen_port in
        (path : Text) × (taken left : Headers) × (outcome : ResponseOutcome) × (to_proxy_url base
            (c ∷ url)
            source
            false
          ≡ base ++ path)
        × (order_headers (shrink_headers 256 response.headers) ≡ taken ++ left)
        × (handle_get site settings (b'/' ∷ path) headers
            ≡ ok (
                raw_response site.decompress
                  (rewrite site)
                  base
                  settings
                  (c ∷ url)
                  outcome
                  false
                  false))
        × Delivered response (collect [] taken) outcome
  unfolding send_over proxied
  link_shows_page source plain scalars http foreign no_cookie passes over v e h k r miss f texts few
        within_order covered =
      let (path, link, asked) =
        proxy_link_followed site settings headers (c ∷ url) source false plain scalars http
          foreign in
      let (answer, s', taken, left, outcome, splits, served, ran, delivered) =
        page_arrives n.hmac_sha256 n.fetch n.server n.mtu n.config c url n.message_id n.timestamp
          response n.clock n.store n.began n.now n.order v e h k r miss f texts few within_order
          covered in
      let sent : site.send_request false (c ∷ url) ≡ ok outcome =
        over ∙ ap (exchanged n (c ∷ url)) served ∙ ap heard ran in
      let shaped =
        good_outcome settings (site.send_request false) c url outcome http passes sent
          (good delivered) in
      (
        path,
        taken,
        left,
        outcome,
        link,
        splits,
        asked
            ∙ ap (λ b. ok (proxied site settings (c ∷ url) false b)) no_cookie
            ∙ ap (λ a. ok (shape site settings false false a)) shaped,
        delivered,
      )
