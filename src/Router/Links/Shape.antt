-- ===== src/Router/Links/Shape.antt =====
-- The path that a link to an absolute URL leads to.
use akari_proxy.Prelude.{
  ℕ, ◌≡◌, refl, sym, ap, ◌∙◌, ◌⊎◌, inl, inr, Bool, true, false, ◌||◌, [], ◌∷◌, ◌++◌, append-nil,
  append_assoc, arith, if◌then◌else◌, Bool-cases, is_empty, All, All-append, All-mono, Text, nat_eq,
  text_key,
}
use akari_proxy.Prelude.Decimal.{decimal, decimal-digits, IsDigit}
use akari_proxy.Prelude.Dict.{get}
use akari_proxy.Prelude.Str.{codes, starts_with, starts_with-split}
use akari_proxy.Utf8.{IsScalar}
use akari_proxy.Url.Percent.{is_unreserved, quote}
use akari_proxy.Url.Percent.RoundTrip.{quote-IsQuoted}
use akari_proxy.Url.Query.{parse_qs, url_query}
use akari_proxy.Url.Quoted.{IsHostChar, url_query_link}
use akari_proxy.Router.Parameters.{is_http}
use akari_proxy.Router.Links.{proxy_base, add_enc, absolute_url, to_proxy_url}

-- An HTTP or HTTPS URL begins so.
abbrev pub Begins : Text → Type 0
Begins url =
    ((t : Text) × (url ≡ codes "http://" ++ t)) ⊎ ((t : Text) × (url ≡ codes "https://" ++ t))

pub is_http-Begins : (url : Text) → is_http url ≡ true → Begins url
is_http-Begins url h = elim (Bool-cases (starts_with url (codes "http://"))) [
  | inl e ↦ inl (starts_with-split url (codes "http://") e)
  | inr e ↦ inr (starts_with-split url (codes "https://") (rw e at h))
]

-- The part of a link's path behind the quoted URL.
abbrev pub enc_suffix : Bool → Text
enc_suffix true = codes "?enc=1"
enc_suffix false = []

module _ (host : Text) (port : ℕ) (plain : All (λ c. is_unreserved c ≡ true) host) where
  host_port : All IsHostChar (host ++ b':' ∷ decimal port)
  host_port =
      All-append IsHostChar host (b':' ∷ decimal port)
        (All-mono (λ c. is_unreserved c ≡ true) IsHostChar host (λ c l. ground arith) plain)
        (
          refl,
          All-mono IsDigit IsHostChar (decimal port) (λ c l. ground arith) (decimal-digits port),
        )

  base_append :
      (q : Text)
      → proxy_base host port ++ q ≡ codes "http://" ++ ((host ++ b':' ∷ decimal port) ++ b'/' ∷ q)
  unfolding proxy_base
  base_append q = simp append_assoc

  add_enc-quote :
      (url : Text)
      → All IsScalar url
      → add_enc (proxy_base host port ++ quote url)
        ≡ proxy_base host port ++ (quote url ++ codes "?enc=1")
  unfolding add_enc
  add_enc-quote url h =
      rw
        (ap url_query (base_append (quote url))
          ∙ url_query_link (host ++ b':' ∷ decimal port) (quote url) host_port
              (quote-IsQuoted url h))
        (unfold parse_qs get in append_assoc (proxy_base host port) (quote url) (codes "?enc=1"))

  absolute_http : (source url : Text) → Begins url → absolute_url source url ≡ url
  unfolding absolute_url starts_with
  absolute_http source url (inl (t, e)) = rw e refl
  absolute_http source url (inr (t, e)) = rw e refl

  -- A link to an absolute URL that is none of the proxy's own.
  pub to_proxy_url-quote :
      (url source : Text) (use_encryption : Bool)
      → All IsScalar url
      → Begins url
      → starts_with url (proxy_base host port) ≡ false
      → to_proxy_url (proxy_base host port) url source use_encryption
        ≡ proxy_base host port ++ (quote url ++ enc_suffix use_encryption)
  unfolding to_proxy_url
  to_proxy_url-quote url source use_encryption h b foreign =
      rw (kept url b, foreign, absolute_http source url b) (ending use_encryption)
    where
      kept :
          (url : Text)
          → Begins url
          → (is_empty url
              || (starts_with url (codes "data:")
                  || (starts_with url (codes "javascript:")
                      || (starts_with url (codes "mailto:") || starts_with url (codes "#")))))
            ≡ false
      kept url (inl (t, e)) = rw e (unfold starts_with in refl)
      kept url (inr (t, e)) = rw e (unfold starts_with in refl)

      ending :
          (enc : Bool)
          → (if enc
              then add_enc (proxy_base host port ++ quote url)
              else proxy_base host port ++ quote url)
            ≡ proxy_base host port ++ (quote url ++ enc_suffix enc)
      ending true = add_enc-quote url h
      ending false = ap (λ q. proxy_base host port ++ q) (sym (append-nil (quote url)))
