-- ===== src/Tests/Rewriting.antt =====
-- Runs of the rewriters of py/akari/web_proxy/router.py.
use akari_proxy.Prelude.{
  List, All, [], ◌∷◌, refl, Bool, true, false, ℕ, ◌≡◌, Text, all, ltb, ltb→lt, &&-true, inl, ℕ, ◌≡◌,
  refl, Bool, true, false, [], Text, text_eq, nat_eq, text_key,
}
use akari_proxy.Prelude.Str.{codes, starts_with, lower, split_onto, strip, contains}
use akari_proxy.Prelude.Dict.{get, put}
use akari_proxy.Prelude.Pattern.{substitute}
use akari_proxy.Utf8
use akari_proxy.Utf8.{encode_char, IsScalar}
use akari_proxy.Prelude.Str.{is_space}
use akari_proxy.Router.Rewriting.Sheets.{
  Piece, plain, reference, bare, css_text, IsSheet, with_links, rewrite_css-with_links,
}
use akari_proxy.Url.{url_scheme, url_netloc, url_path, partition}
use akari_proxy.Url.Percent.{quote}
use akari_proxy.Url.Query.{urlunsplit, url_query, parse_qs, join, url_fragment}
use akari_proxy.Url.Join.{urljoin}
use akari_proxy.Router.Links.{to_proxy_url}
use akari_proxy.Router.Rewriting.{
  rewrite_css, rewrite_js, rewrite_html, srcset_repl, meta_refresh_repl,
}

abbrev proxy : Text
proxy = codes "http://p:1/"

abbrev no_letter : ℕ → Bool
no_letter c = false

css_run :
    rewrite_css no_letter [] proxy
      (codes "http://h/d/x.css")
      false
      (codes "a{b:URL( 'i.png' )}c{d:url(  j.png )} url(data:1)")
    ≡ codes "a{b:URL( 'i.png' )}c{d:url(http://p:1/http%3A%2F%2Fh%2Fd%2Fj.png%20)} url(data:1)"
unfolding rewrite_css Utf8.encode substitute Utf8.decode encode_char get put to_proxy_url
    starts_with quote urljoin url_scheme url_netloc url_path urlunsplit lower url_query parse_qs
    text_eq partition split_onto join url_fragment
css_run = refl

js_run :
    rewrite_js no_letter [] proxy
      (codes "http://h/d/x.js")
      true
      (codes "import 'a'; y=import('c' );import d from  'e';ximport 'f'")
    ≡ codes
        "import 'http://p:1/http%3A%2F%2Fh%2Fd%2Fa?enc=1'; y=import('http://p:1/http%3A%2F%2Fh%2Fd%2Fc?enc=1' );import d from  'http://p:1/http%3A%2F%2Fh%2Fd%2Fe?enc=1';ximport 'f'"
unfolding rewrite_js Utf8.encode substitute Utf8.decode encode_char get put to_proxy_url starts_with
    quote urljoin url_scheme url_netloc url_path urlunsplit lower url_query parse_qs text_eq
    partition split_onto join url_fragment
js_run = refl

html_run :
    rewrite_html no_letter [] proxy (codes "http://h/d/x") false (
      codes
        "<a HREF = 'u'><img xsrc='v' srcset='a 1x,  , b'><META HTTP-EQUIV='refresh' content='0; URL=q'>")
    ≡ codes
        "<a HREF = 'http://p:1/http%3A%2F%2Fh%2Fd%2Fu'><img xsrc='v' srcset=\"http://p:1/http%3A%2F%2Fh%2Fd%2Fa 1x, http://p:1/http%3A%2F%2Fh%2Fd%2Fb\"><META HTTP-EQUIV='refresh' content='0;url=http://p:1/http%3A%2F%2Fh%2Fd%2Fq?_akari_ref=1'><script>(function(){if('serviceWorker' in navigator){navigator.serviceWorker.register('/sw-akari.js',{scope:'/'}).catch(()=>{});}})();</script>"
unfolding rewrite_html srcset_repl meta_refresh_repl strip contains Utf8.encode substitute
    Utf8.decode encode_char get put to_proxy_url starts_with quote urljoin url_scheme url_netloc
    url_path urlunsplit lower url_query parse_qs text_eq partition split_onto join url_fragment
html_run = refl

abbrev sheet : List Piece
sheet =
    plain b'u'
    ∷ plain b'{'
    ∷ reference b'"' (codes "i.png")
    ∷ plain 0xe9
    ∷ bare b'j' (codes " k")
    ∷ plain b'}'
    ∷ []

sheet-IsSheet : IsSheet sheet
unfolding starts_with is_space
sheet-IsSheet = (
  refl,
  (
    refl,
    (
      refl,
      refl,
      (refl, (refl, (refl, (refl, (refl, tt))))),
      (refl, (refl, (refl, (refl, (refl, tt))), (refl, tt))),
    ),
  ),
)

small_scalars : (s : Text) → all (λ c. ltb c 0xd800) s ≡ true → All IsScalar s
small_scalars [] h = tt
small_scalars (c ∷ s) h =
    let both = &&-true _ _ h in (inl (ltb→lt _ _ both.0), small_scalars s both.1)

links_example :
    rewrite_css no_letter [] proxy (codes "http://h/d/x.css") true (Utf8.encode (css_text sheet))
    ≡ Utf8.encode (with_links (λ u. to_proxy_url proxy u (codes "http://h/d/x.css") true) sheet)
links_example =
    rewrite_css-with_links no_letter [] proxy (codes "http://h/d/x.css") true sheet sheet-IsSheet
      (small_scalars (css_text sheet) refl)
