-- ===== src/Url/Quoted.antt =====
-- How URLs with a quoted part are split: a path of the proxy, and a link to it.
use akari_proxy.Prelude.{
  ℕ, ◌<◌, ◌≡◌, refl, ap, ◌∙◌, true, false, not, ◌||◌, none, some, [], ◌∷◌, ◌++◌, arith, leb, ◌==◌,
  ==_self, or_else, All, keep, keep_yes, All-append, All-mono, Text, nat_eq, text_key,
}
use akari_proxy.Prelude.Str.{codes, starts_with}
use akari_proxy.Url.{
  clean_front, clean, partition, is_letter, is_scheme_char, drop_scheme, drop_netloc, local_part,
  url_rest, url_path,
}
use akari_proxy.Url.Percent.{is_unreserved}
use akari_proxy.Url.Percent.RoundTrip.{IsQuoted}
use akari_proxy.Url.Query.{url_query}

abbrev IsShown : ℕ → Type 0
IsShown c = 32 < c

keep_shown : (s : Text) → All IsShown s → keep (λ c. not (c == 9 || c == 10 || c == 13)) s ≡ s
keep_shown [] h = refl
keep_shown (c ∷ s) h =
    keep_yes (λ c. not (c == 9 || c == 10 || c == 13)) c s (let l = h.0 in ground arith)
    ∙ ap (◌∷◌ c) (keep_shown s h.1)

clean_shown : (s : Text) → All IsShown s → clean s ≡ s
unfolding clean clean_front
clean_shown [] h = refl
clean_shown (c ∷ s) h =
    let first : leb c 32 ≡ false = let l = h.0 in ground arith in rw first (keep_shown (c ∷ s) h)

-- Characters other than a separator.
abbrev pub Avoids : ℕ → ℕ → Type 0
Avoids sep c = (c == sep) ≡ false

pub partition-none : (sep : ℕ) (s : Text) → All (Avoids sep) s → partition sep s ≡ (s, none)
unfolding partition
partition-none sep [] h = refl
partition-none sep (c ∷ s) h = rw (h.0, partition-none sep s h.1, partition) refl

pub partition-some :
    (sep : ℕ) (s t : Text) → All (Avoids sep) s → partition sep (s ++ sep ∷ t) ≡ (s, some t)
unfolding partition
partition-some sep [] t h = rw (==_self sep, partition) refl
partition-some sep (c ∷ s) t h = rw (h.0, partition-some sep s t h.1, partition) refl

-- What a path of the proxy is made of.
abbrev IsPathChar : ℕ → Type 0
IsPathChar c = (is_unreserved c || c == b'%' || c == b'?' || c == b'=') ≡ true

quoted-IsPathChar : (q : Text) → All IsQuoted q → All IsPathChar q
quoted-IsPathChar q h = All-mono IsQuoted IsPathChar q (λ c l. ground arith) h

quoted-Avoids : (q : Text) → All IsQuoted q → All (Avoids b'?') q
quoted-Avoids q h = All-mono IsQuoted (Avoids b'?') q (λ c l. ground arith) h

module _ (s : Text) (h : All IsPathChar s)
    (local : starts_with (b'/' ∷ s) (codes "//") ≡ false) where
  url_rest_path : url_rest (b'/' ∷ s) ≡ b'/' ∷ s
  unfolding url_rest drop_scheme local_part
  url_rest_path =
      ap (λ u. local_part (drop_scheme u (partition 58 u)))
        (clean_shown (b'/' ∷ s)
          (omega arith, All-mono IsPathChar IsShown s (λ c l. ground arith) h))
      ∙ ap (λ p. local_part (drop_scheme (b'/' ∷ s) p))
          (partition-none 58 (b'/' ∷ s)
            (refl, All-mono IsPathChar (Avoids 58) s (λ c l. ground arith) h))
      ∙ rw local refl

  no_fragment : partition 35 (b'/' ∷ s) ≡ (b'/' ∷ s, none)
  no_fragment =
      partition-none 35 (b'/' ∷ s) (refl, All-mono IsPathChar (Avoids 35) s (λ c l. ground arith) h)

  url_path_rest : url_path (b'/' ∷ s) ≡ (partition 63 (b'/' ∷ s)).0
  unfolding url_path url_rest
  url_path_rest =
      ap (λ r. (partition 63 (partition 35 r).0).0) url_rest_path
      ∙ ap (λ p. (partition 63 p.0).0) no_fragment

  url_query_rest : url_query (b'/' ∷ s) ≡ or_else (partition 63 (b'/' ∷ s)).1 []
  unfolding url_query
  url_query_rest =
      ap (λ r. or_else (partition 63 (partition 35 r).0).1 []) url_rest_path
      ∙ ap (λ p. or_else (partition 63 p.0).1 []) no_fragment

module _ (q : Text) (h : All IsQuoted q) (local : starts_with (b'/' ∷ q) (codes "//") ≡ false) where
  pub url_path_quoted : url_path (b'/' ∷ q) ≡ b'/' ∷ q
  url_path_quoted =
      url_path_rest q (quoted-IsPathChar q h) local
      ∙ ap (λ p. p.0) (partition-none 63 (b'/' ∷ q) (refl, quoted-Avoids q h))

  pub url_query_quoted : url_query (b'/' ∷ q) ≡ []
  url_query_quoted =
      url_query_rest q (quoted-IsPathChar q h) local
      ∙ ap (λ p. or_else p.1 []) (partition-none 63 (b'/' ∷ q) (refl, quoted-Avoids q h))

  -- A path with the parameter that asks for encryption.
  module _ (asked : starts_with (b'/' ∷ (q ++ codes "?enc=1")) (codes "//") ≡ false) where
    with_enc : All IsPathChar (q ++ codes "?enc=1")
    with_enc =
        All-append IsPathChar q (codes "?enc=1") (quoted-IsPathChar q h)
          (refl, (refl, (refl, (refl, (refl, (refl, tt))))))

    split_enc : partition 63 (b'/' ∷ (q ++ codes "?enc=1")) ≡ (b'/' ∷ q, some (codes "enc=1"))
    split_enc = partition-some 63 (b'/' ∷ q) (codes "enc=1") (refl, quoted-Avoids q h)

    pub url_path_enc : url_path (b'/' ∷ (q ++ codes "?enc=1")) ≡ b'/' ∷ q
    url_path_enc = url_path_rest (q ++ codes "?enc=1") with_enc asked ∙ ap (λ p. p.0) split_enc

    pub url_query_enc : url_query (b'/' ∷ (q ++ codes "?enc=1")) ≡ codes "enc=1"
    url_query_enc =
        url_query_rest (q ++ codes "?enc=1") with_enc asked ∙ ap (λ p. or_else p.1 []) split_enc

-- A character that ends no host.
abbrev pub IsHostChar : ℕ → Type 0
IsHostChar c = (is_unreserved c || c == b':') ≡ true

drop_netloc-host : (host q : Text) → All IsHostChar host → drop_netloc (host ++ b'/' ∷ q) ≡ b'/' ∷ q
unfolding drop_netloc
drop_netloc-host [] q h = refl
drop_netloc-host (c ∷ host) q h =
    let inside : (c == 47 || c == 63 || c == 35) ≡ false = let l = h.0 in ground arith in
    rw (inside, drop_netloc) (drop_netloc-host host q h.1)

-- A link of the proxy has no query.
module _ (host q : Text) (h : All IsHostChar host) (k : All IsQuoted q) where
  IsShown-link : All IsShown (codes "http://" ++ (host ++ b'/' ∷ q))
  IsShown-link = All-append IsShown (codes "http://") (host ++ b'/' ∷ q) (omega arith) (
      All-append IsShown host (b'/' ∷ q) (All-mono IsHostChar IsShown host (λ c l. ground arith) h)
        (omega arith, All-mono IsQuoted IsShown q (λ c l. ground arith) k))

  url_rest_link : url_rest (codes "http://" ++ (host ++ b'/' ∷ q)) ≡ b'/' ∷ q
  unfolding url_rest drop_scheme local_part is_letter is_scheme_char starts_with
  url_rest_link =
      ap (λ u. local_part (drop_scheme u (partition 58 u)))
        (clean_shown (codes "http://" ++ (host ++ b'/' ∷ q)) IsShown-link)
      ∙ ap (λ p. local_part (drop_scheme (codes "http://" ++ (host ++ b'/' ∷ q)) p))
          (partition-some 58 (codes "http") (codes "//" ++ (host ++ b'/' ∷ q))
            (refl, (refl, (refl, (refl, tt)))))
      ∙ drop_netloc-host host q h

  pub url_query_link : url_query (codes "http://" ++ (host ++ b'/' ∷ q)) ≡ []
  unfolding url_query
  url_query_link =
      ap (λ r. or_else (partition 63 (partition 35 r).0).1 []) url_rest_link
      ∙ ap (λ p. or_else (partition 63 p.0).1 [])
          (partition-none 35 (b'/' ∷ q)
            (refl, All-mono IsQuoted (Avoids 35) q (λ c l. ground arith) k))
      ∙ ap (λ p. or_else p.1 []) (partition-none 63 (b'/' ∷ q) (refl, quoted-Avoids q k))
