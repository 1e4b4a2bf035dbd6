-- ===== src/Router/Responses.antt =====
-- `_apply_response_filter` and `_strip_security_headers`: the parts of `_raw_response` that take
-- something away.
pub mod Blocking
use akari_proxy.Prelude.{
  ◌-◌, ◌/◌, not, ◌||◌, Option, none, some, [], ◌∷◌, if◌then◌else◌, keep, Text, text_eq, nat_eq,
  text_key,
}
use akari_proxy.Prelude.Dict.{Dict}
use akari_proxy.Prelude.Str.{codes, lower, strip, starts_with, one_of}
use akari_proxy.Url.{partition}
use akari_proxy.ContentFilter.{
  ContentCategory, javascript, stylesheet, image, ContentFilterSettings, is_allowed,
}

unfoldable pub strip_csp_headers : Dict Text Text → Dict Text Text
strip_csp_headers headers =
    keep
      (λ x. not (
        one_of (codes "content-security-policy" ∷ codes "content-security-policy-report-only" ∷ [])
          (lower x.0)))
      headers

-- The category, unless it is allowed.
abbrev pub unless_allowed : ContentFilterSettings → ContentCategory → Option ContentCategory
unless_allowed settings category =
    if not (is_allowed settings category) then some category else none

unfoldable pub apply_response_filter : ContentFilterSettings → Text → Option ContentCategory
apply_response_filter settings content_type =
    let ct = strip (partition b';' content_type).0 in
    if starts_with ct (codes "text/javascript")
      || one_of (codes "application/javascript" ∷ codes "application/x-javascript" ∷ []) ct
    then unless_allowed settings javascript
    else if text_eq ct (codes "text/css")
    then unless_allowed settings stylesheet
    else if starts_with ct (codes "image/")
    then unless_allowed settings image
    else none
