-- ===== src/Tests/WebProxy.antt =====
-- The web proxy's theorems at concrete inputs: py/akari/web_proxy/router.py and
-- py/local_proxy/content_filter.py.
use akari_proxy.Prelude.{
  ◌≡◌, refl, ◌≢◌, true, false, none, some, [], ◌∷◌, ◌++◌, arith, or_else, Text, nat_eq, text_key,
}
use akari_proxy.Prelude.Dict.{Dict}
use akari_proxy.Prelude.Str.{codes, strip, starts_with, contains}
use akari_proxy.Exceptions.{ok}
use akari_proxy.Client.Exchange.{ResponseOutcome}
use akari_proxy.Url.{partition}
use akari_proxy.Router.Responses.{apply_response_filter}
use akari_proxy.Prelude.{◌↔◌}
use akari_proxy.Router.Responses.Blocking.{Names, apply_response_filter-stops}
use akari_proxy.ContentFilter.{
  stylesheet, is_allowed, ContentFilterSettings, classify, evaluate, update, category_value,
}
use akari_proxy.ContentFilter.Decisions.{switch_of, evaluate-update}
use akari_proxy.Router.Ids.{after, after-distinct}
use akari_proxy.Router.Parameters.{Params, string, normalize_user_input, is_http}
use akari_proxy.Router.Parameters.Encryption.{normalize_user_input-is_http}
use akari_proxy.Router.Proxy.{execute_proxy}
use akari_proxy.Router.Proxy.Soundness.{Sound, execute_proxy-sound}

distinct_example : after 1 0xffffffff ≢ after 3 0xffffffff
distinct_example =
    after-distinct 0xffffffff 1 3 (omega arith) (omega arith) (omega arith) (omega arith)

abbrev settings : ContentFilterSettings
settings = record { enable_js = true; enable_css = true; enable_img = true; enable_other = true }

evaluate_example :
    let url = codes "http://a.b/c.js" in
    let decision = evaluate (update settings (some false) none none none) url in
    (decision.category ≡ classify url)
    × (decision.allowed
        ≡ or_else
            (switch_of (classify url) (some false) none none none)
            (evaluate settings url).allowed)
    × (decision.allowed ≡ false
        → (decision.status_code ≡ some 204)
          × (decision.body ≡ [])
          × (decision.reason
              ≡ some (category_value (classify url) ++ codes " disabled by content filter")))
evaluate_example = evaluate-update settings (some false) none none none (codes "http://a.b/c.js")

http_example : is_http (codes "https://a.b") ≡ true
unfolding normalize_user_input starts_with contains
http_example = normalize_user_input-is_http (codes "a.b") b'h' (codes "ttps://a.b") refl

abbrev params : Params
params = (codes "enc", string (codes "0")) ∷ []

abbrev cookie : Dict Text Text
cookie = (codes "cookie", codes "akari_enc=1") ∷ []

abbrev good : ResponseOutcome
good = record {
  message_id = 1;
  packets = [];
  body = some (65 ∷ []);
  status_code = some 200;
  headers = none;
  error = none;
  complete = true;
  timed_out = false;
  bytes_sent = 1;
  bytes_received = 1;
  nacks_sent = 0;
  request_retries = 0;
}

sound_example : Sound settings (λ url. ok good) true (codes "http://a") good
unfolding execute_proxy normalize_user_input starts_with
sound_example =
    execute_proxy-sound settings (λ url. ok good) true (codes "http://a") good (codes "http://a")
      refl

stops_example :
    (apply_response_filter
        (update settings none (some false) none none)
        (codes "text/css; charset=utf-8")
      ≡ some stylesheet)
    ↔ ((is_allowed (update settings none (some false) none none) stylesheet ≡ false)
        × Names stylesheet (strip (partition b';' (codes "text/css; charset=utf-8")).0))
stops_example =
    apply_response_filter-stops (update settings none (some false) none none)
      (codes "text/css; charset=utf-8") stylesheet
