-- ===== src/Tests/Browsing.antt =====
-- A link that is followed to its page, at a concrete input.
use akari_proxy.Prelude.{
  ◌≡◌, refl, inl, true, false, none, [], ◌∷◌, ◌++◌, arith, All, Text, text_eq, nat_eq, text_key,
}
use akari_proxy.Prelude.Dict.{get}
use akari_proxy.Prelude.Decimal.{decimal}
use akari_proxy.Prelude.Str.{codes, lower, starts_with, contains}
use akari_proxy.Exceptions.{ok}
use akari_proxy.Handler.Headers.{Headers, shrink_headers, order_headers, lower_keys}
use akari_proxy.Utf8.{IsScalar}
use akari_proxy.Url.{path_suffix, url_path}
use akari_proxy.Client.Exchange.{ResponseOutcome}
use akari_proxy.Client.Headers.RoundTrip.{collect}
use akari_proxy.Client.Loop.Arrivals.{Delivered}
use akari_proxy.ContentFilter.{ContentFilterSettings, blocked, evaluate, is_allowed, classify}
use akari_proxy.Router.Parameters.{has_enc_cookie}
use akari_proxy.Router.Links.{proxy_base, to_proxy_url}
use akari_proxy.Router.Shaping.{raw_response}
use akari_proxy.Router.Site.{Site, rewrite, handle_get}
use akari_proxy.Browsing.{Network, send_over, link_shows_page}
use akari_proxy.Tests.Network.{
  hmac, server, url, config, page, fetch_page, clock, empty, order, three, covered,
}

abbrev allowing : ContentFilterSettings
allowing = record { enable_js = true; enable_css = true; enable_img = true; enable_other = true }

abbrev network : Network
network = record {
  hmac_sha256 = hmac;
  fetch = fetch_page;
  server = server;
  mtu = none;
  clock = clock;
  store = empty;
  config = config;
  message_id = 7;
  timestamp = 0;
  began = 0;
  now = 1;
  order = order;
}

abbrev site : Site
site = record {
  listen_host = codes "a";
  listen_port = 1;
  static = record {
    dir = [];
    entry_file = codes "index.html";
    files = λ parts. none;
    guess_type = λ parts. none;
  };
  send_request = λ use_encryption u. send_over network u;
  decompress = λ codec body. none;
  is_letter = λ c. false;
  script = [];
  loads = λ text. none;
}

scalars : All IsScalar (b'h' ∷ url)
scalars = (
  inl (omega arith),
  (
    inl (omega arith),
    (
      inl (omega arith),
      (
        inl (omega arith),
        (
          inl (omega arith),
          (
            inl (omega arith),
            (
              inl (omega arith),
              (
                inl (omega arith),
                (inl (omega arith), (inl (omega arith), (inl (omega arith), tt))),
              ),
            ),
          ),
        ),
      ),
    ),
  ),
)

passes : blocked (evaluate allowing (b'h' ∷ url)) ≡ false
unfolding evaluate is_allowed classify text_eq lower path_suffix url_path starts_with
passes = refl

shows_example :
    let base = proxy_base site.listen_host site.listen_port in
    (path : Text) × (taken left : Headers) × (outcome : ResponseOutcome) × (to_proxy_url base
        (b'h' ∷ url)
        []
        false
      ≡ base ++ path)
    × (order_headers (shrink_headers 256 page.headers) ≡ taken ++ left)
    × (handle_get site allowing (b'/' ∷ path) []
        ≡ ok (
            raw_response site.decompress
              (rewrite site)
              base
              allowing
              (b'h' ∷ url)
              outcome
              false
              false))
    × Delivered page (collect [] taken) outcome
shows_example =
    link_shows_page network site allowing [] b'h' url page [] (refl, tt) scalars
      (unfold starts_with in refl) (unfold starts_with proxy_base decimal in refl)
      (unfold has_enc_cookie get text_eq contains in refl) passes refl refl refl refl refl refl
      (unfold get in refl) refl (unfold order_headers shrink_headers lower_keys get in tt)
      (ground (arith, three))
      (omega (arith, three), (omega (arith, three), (omega (arith, three), tt)))
      (λ i h. covered i (omega (arith, three)))
