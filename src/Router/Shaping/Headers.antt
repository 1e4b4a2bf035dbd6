-- ===== src/Router/Shaping/Headers.antt =====
-- The headers that a page reaches the browser with.
use akari_proxy.Prelude.{
  ◌⊎◌, ◌≡◌, inl, inr, Bool, false, Option, none, some, length, Text, nat_eq, text_key,
}
use akari_proxy.Prelude.Dict.{Dict, get}
use akari_proxy.Prelude.Decimal.{decimal}
use akari_proxy.Prelude.Str.{codes}
use akari_proxy.ContentFilter.{ContentCategory, ContentFilterSettings}
use akari_proxy.Router.Proxy.{RouteResult}
use akari_proxy.Router.Shaping.{filtered}
use akari_proxy.Router.Shaping.Kept.{NoCsp, Kept}
use akari_proxy.Router.Responses.{apply_response_filter}
use akari_proxy.Prelude.{inl, inr}

-- The filter stops a response of some content type.
abbrev pub Stops : ContentFilterSettings → Bool → RouteResult → Type 0
Stops settings skip_filter result =
    (category : ContentCategory) × (content_type : Text) × (skip_filter ≡ false)
    × (apply_response_filter settings content_type ≡ some category)
    × (result ≡ filtered category)

-- The length of the body is given, no chunks are announced, and no policy is kept. The filter stops the
-- response, or its Location, if any, is `link`.
abbrev pub Delivered : Option Text → ContentFilterSettings → Bool → RouteResult → Type 0
Delivered link settings skip_filter result =
    (get result.headers (codes "Content-Length") ≡ some (decimal (length result.body)))
    × (get result.headers (codes "Transfer-Encoding") ≡ none)
    × NoCsp result.headers
    × (Stops settings skip_filter result ⊎ (get result.headers (codes "Location") ≡ link))
