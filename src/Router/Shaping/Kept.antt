-- ===== src/Router/Shaping/Kept.antt =====
-- What the headers of a page satisfy from step to step of `_raw_response`.
use akari_proxy.Prelude.{
  Option, if◌then◌else◌, ◌≡◌, refl, ◌∙◌, inl, inr, Bool, true, false, none, some, List, [], ◌∷◌,
  arith, Bool-cases, is_empty, All, All-mono, Text, text_eq, text_eq_self, nat_eq, text_key,
}
use akari_proxy.Prelude.Dict.{
  Dict, get, put, pop, has, get-put, get-pop, All-put, All-pop, All-keep_self, get-keep-none,
}
use akari_proxy.Prelude.Str.{codes, lower, one_of}
use akari_proxy.Client.Exchange.{ResponseOutcome}
use akari_proxy.Router.Responses.{strip_csp_headers}
use akari_proxy.Router.Links.{to_proxy_url}
use akari_proxy.Router.Shaping.{set_missing, forwarded_headers, location_of, redirect}

abbrev pub csp_keys : List Text
csp_keys = codes "content-security-policy" ∷ codes "content-security-policy-report-only" ∷ []

-- No name of these is that of a content security policy, in any case.
abbrev pub NoCsp : Dict Text Text → Type 0
NoCsp headers = All (λ x. one_of csp_keys (lower x.0) ≡ false) headers

-- The Location that goes to the browser for the headers that came: the link of what they name, seen from
-- the page's own URL and with its encryption.
abbrev pub link_of : Text → Text → Bool → Dict Text Text → Option Text
link_of proxy url use_encryption came =
    if is_empty (location_of came)
    then get came (codes "Location")
    else some (to_proxy_url proxy (location_of came) url use_encryption)

abbrev pub NoChunks : Dict Text Text → Type 0
NoChunks headers = get headers (codes "Transfer-Encoding") ≡ none

set_missing-NoChunks :
    (key value : Text) (headers : Dict Text Text)
    → text_eq key (codes "Transfer-Encoding") ≡ false
    → NoChunks headers
    → NoChunks (set_missing key value headers)
set_missing-NoChunks key value headers other h = elim (Bool-cases (has headers key)) [
  | inl e ↦ rw e h
  | inr e ↦ rw e (get-put headers key (codes "Transfer-Encoding") value ∙ rw other h)
]

pop-NoChunks :
    (headers : Dict Text Text) (key : Text) → NoChunks headers → NoChunks (pop headers key)
pop-NoChunks headers key h = get-pop headers key (codes "Transfer-Encoding") ∙ ground (arith, h)

strip-NoCsp : (headers : Dict Text Text) → NoCsp (strip_csp_headers headers)
unfolding strip_csp_headers
strip-NoCsp headers = All-mono _ _ _ (λ x e. ground arith) (All-keep_self _ headers)

pub forwarded-kept :
    (url : Text) (outcome : ResponseOutcome) (use_encryption : Bool)
    → NoCsp (forwarded_headers url outcome use_encryption)
      × NoChunks (forwarded_headers url outcome use_encryption)
unfolding forwarded_headers strip_csp_headers
forwarded-kept url outcome use_encryption = (
  strip-NoCsp _,
  get-keep-none _ _ _ (
      set_missing-NoChunks _ _ _ other (
        pop-NoChunks _ _
          (get-pop _ (codes "Transfer-Encoding") (codes "Transfer-Encoding") ∙ rw same refl))),
)
  where
    same : text_eq (codes "Transfer-Encoding") (codes "Transfer-Encoding") ≡ true
    same = text_eq_self _

    other : text_eq (codes "Content-Type") (codes "Transfer-Encoding") ≡ false
    other = unfold text_eq in refl

-- What the headers satisfy when the body is looked at.
pub record Kept (link : Option Text) (headers : Dict Text Text) : Type 0 where
  pub no_csp : NoCsp headers
  pub no_chunks : NoChunks headers
  pub leads_back : get headers (codes "Location") ≡ link

module _ (proxy url : Text) (use_encryption : Bool) (headers : Dict Text Text) where
  moved : Dict Text Text → Text → Dict Text Text
  moved d location = pop (put d (codes "Location") location) (codes "location")

  get-moved : (location : Text) → get (moved headers location) (codes "Location") ≡ some location
  unfolding moved
  get-moved location =
      get-pop (put headers (codes "Location") location) (codes "location") (codes "Location")
      ∙ rw other (get-put headers (codes "Location") (codes "Location") location ∙ rw same refl)
    where
      other : text_eq (codes "location") (codes "Location") ≡ false
      other = unfold text_eq in refl

      same : text_eq (codes "Location") (codes "Location") ≡ true
      same = text_eq_self _

  moved-NoCsp : (location : Text) → NoCsp headers → NoCsp (moved headers location)
  unfolding moved
  moved-NoCsp location h = All-pop _ _ _ (All-put _ _ _ _ h allowed)
    where
      allowed : one_of csp_keys (lower (codes "Location")) ≡ false
      allowed = unfold lower text_eq in refl

  moved-NoChunks : (location : Text) → NoChunks headers → NoChunks (moved headers location)
  unfolding moved
  moved-NoChunks location k =
      pop-NoChunks _ _
        (get-put headers (codes "Location") (codes "Transfer-Encoding") location ∙ rw other k)
    where
      other : text_eq (codes "Location") (codes "Transfer-Encoding") ≡ false
      other = unfold text_eq in refl

  moved-Kept :
      NoCsp headers
      → NoChunks headers
      → Kept
          (some (to_proxy_url proxy (location_of headers) url use_encryption))
          (moved headers (to_proxy_url proxy (location_of headers) url use_encryption))
  moved-Kept h k = record {
    no_csp = moved-NoCsp _ h;
    no_chunks = moved-NoChunks _ k;
    leads_back = get-moved _;
  }

  pub redirect-Kept :
      NoCsp headers
      → NoChunks headers
      → Kept (link_of proxy url use_encryption headers) (redirect proxy url use_encryption headers)
  unfolding redirect moved
  redirect-Kept h k = elim (Bool-cases (is_empty (location_of headers))) [
    | inl e ↦ rw e (record { no_csp = h; no_chunks = k; leads_back = refl })
    | inr e ↦ rw e (moved-Kept h k)
  ]

-- A header of another name taken out or put in.
pub pop-Kept :
    (link : Option Text) (key : Text) (headers : Dict Text Text)
    → text_eq key (codes "Location") ≡ false
    → Kept link headers
    → Kept link (pop headers key)
pop-Kept link key headers other h = record {
  no_csp = All-pop _ headers key h.no_csp;
  no_chunks = pop-NoChunks headers key h.no_chunks;
  leads_back = get-pop headers key (codes "Location") ∙ rw other h.leads_back;
}

pub length-Kept :
    (link : Option Text) (value : Text) (headers : Dict Text Text)
    → Kept link headers
    → Kept link (put headers (codes "Content-Length") value)
length-Kept link value headers h = record {
  no_csp = All-put _ headers _ value h.no_csp allowed;
  no_chunks =
      get-put headers (codes "Content-Length") (codes "Transfer-Encoding") value
      ∙ rw chunks h.no_chunks;
  leads_back =
      get-put headers (codes "Content-Length") (codes "Location") value ∙ rw moved h.leads_back;
}
  where
    allowed : one_of csp_keys (lower (codes "Content-Length")) ≡ false
    allowed = unfold lower text_eq in refl

    chunks : text_eq (codes "Content-Length") (codes "Transfer-Encoding") ≡ false
    chunks = unfold text_eq in refl

    moved : text_eq (codes "Content-Length") (codes "Location") ≡ false
    moved = unfold text_eq in refl
