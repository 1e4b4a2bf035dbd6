-- ===== src/Router/Shaping.antt =====
-- `_raw_response` and `_maybe_decompress`. What the decompressors give and the rewriting of the body
-- are arguments.
pub mod Kept
pub mod Headers
use akari_proxy.Prelude.{
  ℕ, zero, suc, ◌+◌, ◌-◌, ◌/◌, ◌%◌, Bool, true, false, not, ◌&&◌, ◌||◌, Option, none, some, [], ◌∷◌,
  ◌++◌, ltb, ◌==◌, if◌then◌else◌, or_else, within, length, is_empty, Text, Bytes, text_eq, nat_eq,
  text_key,
}
use akari_proxy.Prelude.Dict.{Dict, get, put, pop, has}
use akari_proxy.Prelude.Decimal.{decimal}
use akari_proxy.Prelude.Str.{codes, lower, starts_with, contains, one_of}
use akari_proxy.Client.Exchange.{ResponseOutcome}
use akari_proxy.ContentFilter.{ContentCategory, category_value, ContentFilterSettings}
use akari_proxy.Router.Proxy.{RouteResult}
use akari_proxy.Router.Responses.{strip_csp_headers, apply_response_filter}
use akari_proxy.Router.Links.{to_proxy_url}

-- `f"{n:x}"`; a number has fewer digits than its value plus one.
hex_onto : ℕ → ℕ → Text → Text
hex_onto zero n tail = tail
hex_onto (suc fuel) n tail =
    let digit = if ltb (n % 16) 10 then 48 + n % 16 else 87 + n % 16 in
    elim (ltb n 16) [ true ↦ digit ∷ tail | false ↦ hex_onto fuel (n / 16) (digit ∷ tail) ]

unfoldable pub hexadecimal : ℕ → Text
unfolding hex_onto
hexadecimal n = hex_onto (n + 1) n []

-- `s.title()` of an ASCII text; the flag says that a letter stands in front.
title_from : Bool → Text → Text
title_from after [] = []
title_from after (c ∷ s) =
    let upper = within 65 90 c in
    let low = within 97 122 c in
    (if after && upper then c + 32 else if not after && low then c - 32 else c)
    ∷ title_from (upper || low) s

unfoldable pub title : Text → Text
unfolding title_from
title = title_from false

-- `for k, v in outcome.headers.items(): headers[k.title()] = v`
unfoldable pub titled_onto : Dict Text Text → Dict Text Text → Dict Text Text
unfolding title
titled_onto headers [] = headers
titled_onto headers ((k, v) ∷ rest) = titled_onto (put headers (title k) v) rest

-- The headers that the proxy itself gives.
unfoldable pub own_headers : Text → ResponseOutcome → Dict Text Text
unfolding hexadecimal
own_headers url outcome =
    (codes "X-AKARI-Message-Id", codes "0x" ++ hexadecimal outcome.message_id)
    ∷ (codes "X-AKARI-Bytes-Sent", decimal outcome.bytes_sent)
    ∷ (codes "X-AKARI-Bytes-Received", decimal outcome.bytes_received)
    ∷ (codes "X-AKARI-Target", url)
    ∷ []

-- `if key not in headers: headers[key] = value`
abbrev pub set_missing : Text → Text → Dict Text Text → Dict Text Text
set_missing key value headers = if has headers key then headers else put headers key value

-- The headers up to the security headers, which are taken out.
unfoldable pub forwarded_headers : Text → ResponseOutcome → Bool → Dict Text Text
unfolding own_headers
forwarded_headers url outcome use_encryption =
    let all_headers = titled_onto (own_headers url outcome) (or_else outcome.headers []) in
    let marked =
      if use_encryption
      then set_missing (codes "Set-Cookie") (codes "akari_enc=1; Path=/; SameSite=Lax") all_headers
      else all_headers in
    let whole = pop (pop marked (codes "Transfer-Encoding")) (codes "transfer-encoding") in
    strip_csp_headers (set_missing (codes "Content-Type") (codes "text/html; charset=utf-8") whole)

-- `headers.get("Location") or headers.get("location")`
unfoldable pub location_of : Dict Text Text → Text
location_of headers =
    let location = or_else (get headers (codes "Location")) [] in
    if is_empty location then or_else (get headers (codes "location")) [] else location

-- A redirection leads through the proxy again.
unfoldable pub redirect : Text → Text → Bool → Dict Text Text → Dict Text Text
unfolding location_of
redirect proxy url use_encryption headers =
    let location = location_of headers in
    if is_empty location
    then headers
    else pop (put headers (codes "Location") (to_proxy_url proxy location url use_encryption))
        (codes "location")

pub data Codec : Type 0 where
  brotli gzip deflate : Codec

-- The codec of a Content-Encoding, if it is known.
abbrev pub codec_of : Text → Option Codec
codec_of enc =
    if one_of (codes "br" ∷ codes "brotli" ∷ []) enc
    then some brotli
    else if text_eq enc (codes "gzip")
    then some gzip
    else if text_eq enc (codes "deflate")
    then some deflate
    else none

-- Which of the rewriters runs on a body.
pub data Rewriter : Type 0 where
  html css js : Rewriter

abbrev pub rewriter_of : Text → Option Rewriter
rewriter_of content_type =
    if starts_with content_type (codes "text/html")
    then some html
    else if starts_with content_type (codes "text/css")
    then some css
    else if contains content_type (codes "javascript")
    then some js
    else none

-- A body that could not be decompressed stays as it is.
abbrev pub unpacked : Bytes → Dict Text Text → Option Bytes → Bytes × Dict Text Text × Bool
unpacked body headers none = (body, headers, false)
unpacked body headers (some plain) = (plain, pop headers (codes "Content-Encoding"), true)

abbrev pub filtered : ContentCategory → RouteResult
filtered category = record {
  status_code = 204;
  body = [];
  headers =
      (codes "Content-Length", codes "0")
      ∷ (codes "Cache-Control", codes "no-cache")
      ∷ (codes "X-AKARI-Filtered", category_value category)
      ∷ (codes "Content-Type", codes "text/plain; charset=utf-8")
      ∷ [];
}

-- The response with its body as the browser gets it.
unfoldable pub with_body : ResponseOutcome → Dict Text Text → Bytes → RouteResult
with_body outcome headers body = record {
  status_code =
      (let status = or_else outcome.status_code 200 in if status == 0 then 200 else status);
  body = body;
  headers = put headers (codes "Content-Length") (decimal (length body));
}

abbrev pub unless_blocked : Option ContentCategory → RouteResult → RouteResult
unless_blocked (some category) result = filtered category
unless_blocked none result = result

module _ (decompress : Codec → Bytes → Option Bytes)
    (rewrite : Rewriter → Bytes → Text → Bool → Bytes) where
  -- The body, the headers, and whether the body is plain now.
  unfoldable pub maybe_decompress : Bytes → Dict Text Text → Bytes × Dict Text Text × Bool
  maybe_decompress body headers =
      let enc = lower (or_else (get headers (codes "Content-Encoding")) []) in
      if is_empty enc
      then (body, headers, true)
      else unpacked body headers
          (elim (codec_of enc) [ none ↦ none | some codec ↦ decompress codec body ])

  -- A body that could not be decompressed is left alone.
  unfoldable pub rewritten : Text → Text → Bool → Bytes × Dict Text Text × Bool → Bytes
  rewritten content_type url use_encryption (body, headers, false) = body
  rewritten content_type url use_encryption (body, headers, true) =
      elim (rewriter_of content_type) [
        | none ↦ body
        | some rewriter ↦ rewrite rewriter body url use_encryption
      ]

  unfoldable pub raw_response :
      Text → ContentFilterSettings → Text → ResponseOutcome → Bool → Bool → RouteResult
  unfolding forwarded_headers redirect maybe_decompress rewritten with_body
  raw_response proxy settings url outcome skip_filter use_encryption =
      let headers =
        redirect proxy url use_encryption (forwarded_headers url outcome use_encryption) in
      let plain = maybe_decompress (or_else outcome.body []) headers in
      let content_type = lower (or_else (get plain.1 (codes "Content-Type")) []) in
      let body = rewritten content_type url use_encryption plain in
      let result = with_body outcome plain.1 body in
      if skip_filter
      then result
      else unless_blocked (apply_response_filter settings content_type) result
