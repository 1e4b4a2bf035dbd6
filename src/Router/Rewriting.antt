-- ===== src/Router/Rewriting.antt =====
-- `_rewrite_html_to_proxy`, `_rewrite_css_to_proxy` and `_rewrite_js_to_proxy`: the links in a page lead
-- through the proxy. Which code points from 128 on are letters, and the script that is put behind every
-- HTML page, are arguments.
pub mod Patterns
pub mod Matches
pub mod Sheets
use akari_proxy.Prelude.{
  ℕ, ◌+◌, ◌-◌, ◌/◌, ◌<◌, Bool, not, ◌&&◌, ◌||◌, Option, none, some, List, [], ◌∷◌, ◌++◌, ◌==◌,
  if◌then◌else◌, is_empty, drop, Text, Bytes, nat_eq, text_key,
}
use akari_proxy.Prelude.Dict.{Dict, has}
use akari_proxy.Prelude.Str.{codes, lower, strip, is_space, starts_with, contains, split}
use akari_proxy.Prelude.Pattern.{
  Item, one, run, perhaps, word, words, boundary, start_or_space, edge, perhaps_group, group,
  substitute,
}
use akari_proxy.Utf8
use akari_proxy.Url.{partition}
use akari_proxy.Url.Query.{join, parse_qs, url_query}
use akari_proxy.Router.Links.{to_proxy_url}
use akari_proxy.Router.Shaping.{Rewriter, html, css, js}

abbrev pub is_quote : ℕ → Bool
is_quote c = c == b'"' || c == b'\''

abbrev pub outside_quotes : ℕ → Bool
outside_quotes c = not (is_quote c)

-- `url\(\s*(?P<quote>['"]?)(?P<url>[^'")]+)\s*(?P=quote)?\)`
abbrev pub css_pattern : List Item
css_pattern =
    word (codes "url(")
    ∷ run 0 is_space
    ∷ edge 0
    ∷ perhaps is_quote
    ∷ edge 1
    ∷ run 1 (λ c. outside_quotes c && not (c == b')'))
    ∷ edge 2
    ∷ run 0 is_space
    ∷ perhaps_group 0 1
    ∷ one (λ c. c == b')')
    ∷ []

-- `(…['"])([^'"]+)(['"]…)`: a literal between what stands before and behind it.
abbrev literal_pattern : List Item → List Item → List Item
literal_pattern before behind =
    edge 0
    ∷ (before
        ++ (one is_quote
            ∷ edge 1
            ∷ run 1 outside_quotes
            ∷ edge 2
            ∷ one is_quote
            ∷ (behind ++ (edge 3 ∷ []))))

-- `fetch('…')`, `import('…')`, `from '…'` and `import '…'`
abbrev pub js_patterns : List (List Item)
js_patterns =
    literal_pattern
      (word (codes "fetch") ∷ run 0 is_space ∷ one (λ c. c == b'(') ∷ run 0 is_space ∷ []) []
    ∷ literal_pattern
        (word (codes "import") ∷ run 0 is_space ∷ one (λ c. c == b'(') ∷ run 0 is_space ∷ [])
        (run 0 is_space ∷ one (λ c. c == b')') ∷ [])
    ∷ literal_pattern (word (codes "from") ∷ run 1 is_space ∷ []) []
    ∷ literal_pattern (start_or_space ∷ word (codes "import") ∷ run 1 is_space ∷ []) []
    ∷ []

-- `\s*=\s*["']`
abbrev value_begins : List Item → List Item
value_begins items = run 0 is_space ∷ one (λ c. c == b'=') ∷ run 0 is_space ∷ one is_quote ∷ items

-- `(?P<prefix>\b(?:href|src|action)\s*=\s*["'])([^"']+)`
abbrev pub attr_pattern : List Item
attr_pattern =
    edge 0
    ∷ boundary
    ∷ words (codes "href" ∷ codes "src" ∷ codes "action" ∷ [])
    ∷ value_begins (edge 1 ∷ run 1 outside_quotes ∷ edge 2 ∷ [])

-- `\bsrcset\s*=\s*["']([^"']+)["']`
abbrev pub srcset_pattern : List Item
srcset_pattern =
    boundary
    ∷ word (codes "srcset")
    ∷ value_begins (edge 0 ∷ run 1 outside_quotes ∷ edge 1 ∷ one is_quote ∷ [])

-- `(<meta\s+[^>]*http-equiv\s*=\s*["']refresh["'][^>]*content\s*=\s*["'])([^"']+)`
abbrev pub meta_refresh_pattern : List Item
meta_refresh_pattern =
    edge 0
    ∷ word (codes "<meta")
    ∷ run 1 is_space
    ∷ run 0 (λ c. not (c == b'>'))
    ∷ word (codes "http-equiv")
    ∷ value_begins (
        word (codes "refresh")
        ∷ one is_quote
        ∷ run 0 (λ c. not (c == b'>'))
        ∷ word (codes "content")
        ∷ value_begins (edge 1 ∷ run 1 outside_quotes ∷ edge 2 ∷ []))

-- `s.split()`: the words between white space; `cur` is the word so far.
tokens_onto : Text → Text → List Text
unfolding is_space
tokens_onto cur [] = if is_empty cur then [] else cur ∷ []
tokens_onto cur (c ∷ s) =
    let inside = tokens_onto (cur ++ (c ∷ [])) s in
    let rest = tokens_onto [] s in
    if is_space c then (if is_empty cur then rest else cur ∷ rest) else inside

module _ (is_letter : ℕ → Bool) (script : Text) (proxy : Text) (source_url : Text)
    (use_encryption : Bool) where
  abbrev link : Text → Text
  link url = to_proxy_url proxy url source_url use_encryption

  abbrev pub css_repl : Dict ℕ Text → Text
  css_repl edges =
      let quote = group 0 1 edges in
      codes "url(" ++ (quote ++ (link (group 1 2 edges) ++ (quote ++ codes ")")))

  unfoldable pub rewrite_css : Bytes → Bytes
  rewrite_css body = Utf8.encode (substitute is_letter css_pattern css_repl (Utf8.decode body))

  abbrev pub literal_repl : Dict ℕ Text → Text
  literal_repl edges = group 0 1 edges ++ (link (group 1 2 edges) ++ group 2 3 edges)

  substitute_all : List (List Item) → Text → Text
  substitute_all [] text = text
  substitute_all (pattern ∷ patterns) text =
      substitute_all patterns (substitute is_letter pattern literal_repl text)

  unfoldable pub rewrite_js : Bytes → Bytes
  unfolding substitute_all
  rewrite_js body = Utf8.encode (substitute_all js_patterns (Utf8.decode body))

  abbrev pub attr_repl : Dict ℕ Text → Text
  attr_repl edges = group 0 1 edges ++ link (group 1 2 edges)

  abbrev candidate : List Text → List Text
  candidate [] = []
  candidate (url ∷ rest) = strip (link url ++ (codes " " ++ join (codes " ") rest)) ∷ []

  candidates : List Text → List Text
  unfolding tokens_onto join
  candidates [] = []
  candidates (entry ∷ entries) = candidate (tokens_onto [] (strip entry)) ++ candidates entries

  unfoldable pub srcset_repl : Dict ℕ Text → Text
  unfolding candidates join
  srcset_repl edges =
      codes "srcset=\""
      ++ (join (codes ", ") (candidates (split b',' (group 0 1 edges))) ++ codes "\"")

  -- `"_akari_ref" in qs`
  abbrev already_refreshed : Bool
  already_refreshed = has (parse_qs (url_query source_url)) (codes "_akari_ref")

  abbrev marked : Text → Text
  marked proxied =
      proxied
      ++ ((if contains proxied (codes "?") then codes "&" else codes "?") ++ codes "_akari_ref=1")

  -- The target of a refresh after a delay, if there is one.
  abbrev refreshed : Text → Text → Text × Option Text → Text
  refreshed prefix whole (delay, none) = whole
  refreshed prefix whole (delay, some part) =
      let url_part = strip part in
      if starts_with (lower url_part) (codes "url=")
      then prefix ++ (strip delay ++ (codes ";url=" ++ marked (link (strip (drop 4 url_part)))))
      else whole

  unfoldable pub meta_refresh_repl : Dict ℕ Text → Text
  meta_refresh_repl edges =
      if already_refreshed
      then []
      else refreshed (group 0 1 edges) (group 0 2 edges) (partition b';' (group 1 2 edges))

  abbrev pub registration_snippet : Text
  registration_snippet =
      codes
        "<script>(function(){if('serviceWorker' in navigator){navigator.serviceWorker.register('"
      ++ ((if use_encryption then codes "/sw-akari.js?enc=1" else codes "/sw-akari.js")
          ++ codes "',{scope:'/'}).catch(()=>{});}})();</script>")

  unfoldable pub rewrite_html : Bytes → Bytes
  unfolding srcset_repl meta_refresh_repl
  rewrite_html body =
      let links = substitute is_letter attr_pattern attr_repl (Utf8.decode body) in
      let sources = substitute is_letter srcset_pattern srcset_repl links in
      let text = substitute is_letter meta_refresh_pattern meta_refresh_repl sources in
      Utf8.encode (text ++ (registration_snippet ++ script))

-- The rewriter that `_raw_response` calls.
unfoldable pub rewrite_body : (ℕ → Bool) → Text → Text → Rewriter → Bytes → Text → Bool → Bytes
unfolding rewrite_html rewrite_css rewrite_js
rewrite_body is_letter script proxy html body url use_encryption =
    rewrite_html is_letter script proxy url use_encryption body
rewrite_body is_letter script proxy css body url use_encryption =
    rewrite_css is_letter script proxy url use_encryption body
rewrite_body is_letter script proxy js body url use_encryption =
    rewrite_js is_letter script proxy url use_encryption body
