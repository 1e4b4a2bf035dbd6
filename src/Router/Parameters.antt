-- ===== src/Router/Parameters.antt =====
-- `_extract_url`, `_coerce_bool`, `_normalize_user_input`, `_has_enc_cookie` and the part of
-- `_handle_proxy` and `_handle_filter_update` that reads the parameters.
pub mod Encryption
use akari_proxy.Prelude.{
  zero, suc, ◌+◌, ◌/◌, Bool, true, false, not, ◌&&◌, ◌||◌, Option, none, some, List, [], ◌∷◌, ◌++◌,
  if◌then◌else◌, is_some, or_else, is_empty, Text, nat_eq, text_key,
}
use akari_proxy.Prelude.Dict.{Dict, get}
use akari_proxy.Prelude.Decimal.{ℤ, pos}
use akari_proxy.Prelude.Str.{codes, lower, strip, starts_with, contains, one_of}
use akari_proxy.Exceptions.{Exn, Result, ok, raise, value_error, ◌>>=◌}
use akari_proxy.ContentFilter.{ContentFilterSettings, update}

-- A value of a query, of a form or of JSON. A number that is no integer is a `fraction`.
mutual
  pub data Value : Type 0 where
    null fraction mapping : Value
    truth : Bool → Value
    number : ℤ → Value
    string : Text → Value
    array : Values → Value

  pub data Values : Type 0 where
    nil : Values
    cons : Value → Values → Values

abbrev pub Params : Type 0
Params = Dict Text Value

-- `value[0]` of a list that is not empty, any other value itself; `none` for the empty list.
abbrev pub first_value : Value → Option Value
first_value (array nil) = none
first_value (array (cons v vs)) = some v
first_value v = some v

-- The message of the ValueError, without the quoted value at its end.
unfoldable pub not_a_bool : Text → Exn
not_a_bool key = value_error (key ++ codes " は true/false で指定してください。入力値: ")

unfoldable pub coerce_text : Text → Text → Result (Option Bool)
unfolding not_a_bool
coerce_text key value =
    let val = lower (strip value) in
    if one_of (codes "1" ∷ codes "true" ∷ codes "yes" ∷ codes "on" ∷ []) val
    then ok (some true)
    else if one_of (codes "0" ∷ codes "false" ∷ codes "no" ∷ codes "off" ∷ []) val
    then ok (some false)
    else raise (not_a_bool key)

coerce_value : Text → Value → Result (Option Bool)
unfolding coerce_text not_a_bool
coerce_value key (truth b) = ok (some b)
coerce_value key (number (pos zero)) = ok (some false)
coerce_value key (number (pos (suc zero))) = ok (some true)
coerce_value key (number _) = raise (not_a_bool key)
coerce_value key (string value) = coerce_text key value
coerce_value key _ = raise (not_a_bool key)

unfoldable pub coerce_bool : Params → Text → Result (Option Bool)
unfolding coerce_value
coerce_bool payload key = elim (get payload key) [
  | none ↦ ok none
  | some value ↦ elim (first_value value) [ none ↦ ok none | some v ↦ coerce_value key v ]
]

-- The candidate that one source gives; empty if it gives none.
candidate : Option Value → Text
candidate (some (string value)) = strip value
candidate (some (array (cons (string value) vs))) = strip value
candidate _ = []

unfoldable pub extract_url : List Params → Text
unfolding candidate
extract_url [] = []
extract_url (source ∷ sources) =
    let later = extract_url sources in
    let found = candidate (get source (codes "url")) in if is_empty found then later else found

abbrev pub is_http : Text → Bool
is_http url = starts_with url (codes "http://") || starts_with url (codes "https://")

-- The URL of what the user typed; `none` is refused, like the empty text.
unfoldable pub normalize_user_input : Text → Option Text
normalize_user_input [] = some []
normalize_user_input (c ∷ value) =
    if is_http (c ∷ value)
    then some (c ∷ value)
    else if not (contains (c ∷ value) (codes "://")) && contains (c ∷ value) (codes ".")
    then some (codes "https://" ++ (c ∷ value))
    else none

-- `headers.get("cookie") or headers.get("Cookie") or ""`
unfoldable pub has_enc_cookie : Dict Text Text → Bool
has_enc_cookie headers =
    let low = or_else (get headers (codes "cookie")) [] in
    let cookie = if is_empty low then or_else (get headers (codes "Cookie")) [] else low in
    contains cookie (codes "akari_enc=1")

-- `a or b`
abbrev pub or_bool : Option Bool → Option Bool → Option Bool
or_bool (some true) b = some true
or_bool _ b = b

-- Whether a request asks for encryption: by `enc`, by `e`, else by the cookie.
unfoldable pub wants_encryption : Params → Dict Text Text → Result Bool
wants_encryption query_params headers = do
  enc ← coerce_bool query_params (codes "enc")
  elim enc [
    | some true ↦ ok true
    | _ ↦ (do e ← coerce_bool query_params (codes "e"); ok (or_else e (has_enc_cookie headers)))
  ]

-- The settings after `_handle_filter_update`; the exception stands for the answer 400 with its message.
unfoldable pub filter_update : ContentFilterSettings → Params → Result ContentFilterSettings
filter_update current payload = do
  js ← coerce_bool payload (codes "enable_js")
  css ← coerce_bool payload (codes "enable_css")
  img ← coerce_bool payload (codes "enable_img")
  oth ← coerce_bool payload (codes "enable_other")
  if is_some js || is_some css || is_some img || is_some oth
      then ok (update current js css img oth)
      else raise
          (value_error (codes "enable_js/enable_css/enable_img/enable_other のいずれかを指定してください。"))
