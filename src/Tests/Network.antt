-- ===== src/Tests/Network.antt =====
-- The server, the fetcher and the whole way of a page at concrete inputs: py/akari/udp_server.py,
-- py/akari/remote_proxy/http_client.py.
use akari_proxy.Prelude.{
  ℕ, zero, suc, ◌<◌, ◌≡◌, refl, true, false, none, some, List, [], ◌∷◌, ◌++◌, map, arith, length,
  is_empty, Text, Bytes, text_eq, nat_eq, text_key,
}
use akari_proxy.Prelude.Dict.{get, put}
use akari_proxy.Prelude.Decimal.{pos}
use akari_proxy.Prelude.Str.{codes, lower, strip, starts_with, one_of}
use akari_proxy.Exceptions.{Result, ok}
use akari_proxy.Url.{url_scheme, url_netloc, partition}
use akari_proxy.Wire.{Datagram, has_flag, set_flag}
use akari_proxy.Handler.Sizes.{payload_cap, calc_payload_caps, max_datagram_size}
use akari_proxy.Handler.Split.{slices, split_body, split_caps}
use akari_proxy.Handler.Headers.{Headers, shrink_headers, order_headers, lower_keys}
use akari_proxy.Handler.State.{IncomingRequest, HttpResponse, State, Clock}
use akari_proxy.Handler.Respond.{v3_flags, v3_chunks}
use akari_proxy.Handler.Requests.{handle_request}
use akari_proxy.Server.{
  reliable, AkariUdpServer, dynamic_payload_cap, datagram, answered, request_of, handle_next,
}
use akari_proxy.Server.Serving.{Limits, dynamic_payload_cap-Limits}
use akari_proxy.Fetcher.{
  Request, Opened, response, strip_security_headers, normalize_url, receive, fetch,
}
use akari_proxy.Fetcher.Safety.{Fetched, fetch-Fetched}
use akari_proxy.Fetching.{request_packet, page_arrives}
use akari_proxy.Client.Config.{ClientConfig, positive}
use akari_proxy.Client.Headers.RoundTrip.{collect}
use akari_proxy.Client.Exchange.{ResponseOutcome, done, make_request, start}
use akari_proxy.Client.Loop.{run}
use akari_proxy.Client.Loop.Arrivals.{parsed, arrival, coming_later, Delivered}

payload_example :
    Limits 1200 (positive (some (pos 1000))) (dynamic_payload_cap (some 1200) (some (pos 1000)))
payload_example = dynamic_payload_cap-Limits 1200 (some (pos 1000))

abbrev pub hmac : Bytes → Bytes → Bytes
hmac key message = key ++ message

abbrev pub server : AkariUdpServer
server = record { psk = 1 ∷ []; buffer_size = 65535; payload_max = some 133; plpmtud = false }

abbrev pub url : Text
url = codes "ttp://a.b/"

abbrev request : IncomingRequest
request = request_of server none (request_packet (b'h' ∷ url) 7 0)

abbrev open_page : Request → Opened
open_page r =
    response 200 ((codes "X-Frame-Options", codes "DENY") ∷ (codes "ETag", codes "x") ∷ [])
      (65 ∷ [])

abbrev fetched_page : HttpResponse
fetched_page = record {
  status_code = 200;
  headers = (codes "ETag", codes "x") ∷ [];
  body = 65 ∷ [];
}

http_page_example :
    Fetched open_page 10 (codes "http://a.b/") fetched_page
    × (one_of (codes "http" ∷ codes "https" ∷ []) (url_scheme (strip (codes "http://a.b/"))) ≡ true)
    × (is_empty (url_netloc (strip (codes "http://a.b/"))) ≡ false)
unfolding fetch normalize_url receive strip_security_headers url_scheme url_netloc partition strip
    lower starts_with text_eq put
http_page_example =
    fetch-Fetched open_page 10 (codes "10.0") (codes "http://a.b/") fetched_page refl

abbrev pub config : ClientConfig
config = record {
  psk = 1 ∷ [];
  timeout = some 10;
  buffer_size = 65535;
  version = 3;
  max_nack_rounds = some 2;
  max_ack_rounds = 0;
  use_encryption = false;
  initial_request_retries = 1;
  dyn_payload_max = none;
  short_id = false;
}

abbrev pub page : HttpResponse
page = record { status_code = 200; headers = []; body = 10 ∷ 20 ∷ 30 ∷ [] }

abbrev pub fetch_page : Text → Result HttpResponse
fetch_page u = ok page

abbrev pub clock : Clock
clock = record { at_start = 5; at_store = 6; at_encode = 7; at_cache = 8; at_purge = 9 }

abbrev pub empty : State
empty = record { resp_cache = []; http_cache = []; require_encryption = false }

pub three : length (v3_chunks request page.body) ≡ 3
unfolding request_of v3_chunks split_body split_caps slices calc_payload_caps payload_cap
    max_datagram_size v3_flags has_flag set_flag
three = refl

abbrev pub order : List (ℕ × ℕ)
order = (3, 2) ∷ (2, 4) ∷ (1, 5) ∷ []

pub covered : (i : ℕ) → i < 3 → coming_later (suc i) order ≡ true
covered zero h = refl
covered (suc zero) h = refl
covered (suc (suc zero)) h = refl
covered (suc (suc (suc i))) h = absurd (omega arith)

arrives_example :
    (answer : List Datagram) × (s' : State) × (taken left : Headers) × (outcome : ResponseOutcome)
    × (order_headers (shrink_headers 256 []) ≡ taken ++ left)
    × (handle_next server none reliable
          (λ r. handle_request hmac fetch_page r clock)
          (datagram (parsed (make_request config (b'h' ∷ url) 7 0 none).datagram))
          empty
        ≡ (answered request answer, s'))
    × (run hmac config
          (make_request config (b'h' ∷ url) 7 0 none)
          (map (arrival answer) ((0, 1) ∷ order))
          (start config (make_request config (b'h' ∷ url) 7 0 none) 0)
        ≡ ok (done outcome))
    × Delivered page (collect [] taken) outcome
arrives_example =
    page_arrives hmac fetch_page server none config b'h' url 7 0 page clock empty 0 1 order refl
      refl refl refl refl (unfold get in refl) refl
      (unfold order_headers shrink_headers lower_keys get in tt) (ground (arith, three))
      (omega (arith, three), (omega (arith, three), (omega (arith, three), tt)))
      (λ i h. covered i (omega (arith, three)))
