-- ===== src/ContentFilter.antt =====
-- py/local_proxy/content_filter.py: which URLs the web proxy blocks by itself.
pub mod Decisions
use akari_proxy.Prelude.{
  ℕ, ◌+◌, ◌-◌, Bool, true, false, not, Option, none, some, List, [], ◌∷◌, ◌++◌, if◌then◌else◌,
  or_else, is_empty, Text, Bytes, nat_eq, text_key,
}
use akari_proxy.Prelude.Dict.{Dict}
use akari_proxy.Prelude.Str.{codes, lower, one_of}
use akari_proxy.Url.{url_path, path_suffix}

pub data ContentCategory : Type 0 where
  html javascript stylesheet image other : ContentCategory

abbrev pub category_value : ContentCategory → Text
category_value html = codes "html"
category_value javascript = codes "javascript"
category_value stylesheet = codes "css"
category_value image = codes "image"
category_value other = codes "other"

pub record FilterDecision : Type 0 where
  pub allowed : Bool
  pub category : ContentCategory
  pub status_code : Option ℕ
  pub headers : Dict Text Text
  pub body : Bytes
  pub reason : Option Text

abbrev pub blocked : FilterDecision → Bool
blocked decision = not decision.allowed

pub record ContentFilterSettings : Type 0 where
  pub enable_js : Bool
  pub enable_css : Bool
  pub enable_img : Bool
  pub enable_other : Bool

abbrev pub js_extensions : List Text
js_extensions = codes ".js" ∷ codes ".mjs" ∷ codes ".cjs" ∷ []

abbrev pub css_extensions : List Text
css_extensions = codes ".css" ∷ []

abbrev pub image_extensions : List Text
image_extensions =
    codes ".png"
    ∷ codes ".jpg"
    ∷ codes ".jpeg"
    ∷ codes ".gif"
    ∷ codes ".bmp"
    ∷ codes ".webp"
    ∷ codes ".svg"
    ∷ codes ".ico"
    ∷ codes ".avif"
    ∷ codes ".apng"
    ∷ []

abbrev pub html_extensions : List Text
html_extensions =
    codes ".html"
    ∷ codes ".htm"
    ∷ codes ".shtml"
    ∷ codes ".xhtml"
    ∷ codes ".php"
    ∷ codes ".asp"
    ∷ codes ".aspx"
    ∷ codes ".jsp"
    ∷ []

unfoldable pub classify_suffix : Text → ContentCategory
classify_suffix suffix =
    if one_of js_extensions suffix
    then javascript
    else if one_of css_extensions suffix
    then stylesheet
    else if one_of image_extensions suffix
    then image
    else if one_of html_extensions suffix
    then html
    else if is_empty suffix
    then html
    else other

unfoldable pub classify : Text → ContentCategory
unfolding classify_suffix
classify url = classify_suffix (lower (path_suffix (url_path url)))

unfoldable pub is_allowed : ContentFilterSettings → ContentCategory → Bool
is_allowed settings javascript = settings.enable_js
is_allowed settings stylesheet = settings.enable_css
is_allowed settings image = settings.enable_img
is_allowed settings other = settings.enable_other
is_allowed settings html = true

unfoldable pub evaluate : ContentFilterSettings → Text → FilterDecision
unfolding classify is_allowed
evaluate settings url =
    let category = classify url in
    if is_allowed settings category
    then record {
      allowed = true;
      category = category;
      status_code = none;
      headers = [];
      body = [];
      reason = none;
    }
    else record {
      allowed = false;
      category = category;
      status_code = some 204;
      headers =
          (codes "Content-Length", codes "0")
          ∷ (codes "Cache-Control", codes "no-cache")
          ∷ (codes "X-AKARI-Filtered", category_value category)
          ∷ [];
      body = [];
      reason = some (category_value category ++ codes " disabled by content filter");
    }

-- The settings after `update`, which are also what it returns. An argument is `none` where it is not given.
unfoldable pub update :
    ContentFilterSettings
    → Option Bool
    → Option Bool
    → Option Bool
    → Option Bool
    → ContentFilterSettings
update current enable_js enable_css enable_img enable_other = record {
  enable_js = or_else enable_js current.enable_js;
  enable_css = or_else enable_css current.enable_css;
  enable_img = or_else enable_img current.enable_img;
  enable_other = or_else enable_other current.enable_other;
}
