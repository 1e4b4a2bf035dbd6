-- ===== src/Url/Query.antt =====
-- The query and the fragment of a URL, `parse_qs`, `urlencode(…, doseq=True)`, and `urlunsplit` for
-- the schemes `http` and `https`.
use akari_proxy.Prelude.{
  ℕ, ◌&&◌, Option, none, some, List, [], ◌∷◌, ◌++◌, map, ◌==◌, if◌then◌else◌, or_else, is_empty,
  Text, nat_eq, text_key,
}
use akari_proxy.Prelude.Dict.{Dict, get, put}
use akari_proxy.Prelude.Str.{codes, starts_with, split}
use akari_proxy.Url.{url_rest, partition}
use akari_proxy.Url.Percent.{quote_plus, unquote}

-- `urlsplit(url).fragment` and `urlsplit(url).query`
unfoldable pub url_fragment : Text → Text
unfolding url_rest
url_fragment url = or_else (partition 35 (url_rest url)).1 []

unfoldable pub url_query : Text → Text
unfolding url_rest
url_query url = or_else (partition 63 (partition 35 (url_rest url)).0).1 []

-- `s.replace('+', ' ')`
abbrev plus_to_blank : Text → Text
plus_to_blank = map (λ c. if c == b'+' then 32 else c)

-- `name=value`; what has no `=` or nothing behind it is skipped.
pair_of : Text × Option Text → Option (Text × Text)
pair_of (name, some (c ∷ value)) =
    some (unquote (plus_to_blank name), unquote (plus_to_blank (c ∷ value)))
pair_of (name, other) = none

abbrev pub Query : Type 0
Query = Dict Text (List Text)

abbrev pub append_values : Query → Text → List Text → Query
append_values query name values = put query name (or_else (get query name) [] ++ values)

parse_pieces : Query → List Text → Query
unfolding pair_of
parse_pieces query [] = query
parse_pieces query (piece ∷ pieces) =
    parse_pieces
      (elim (pair_of (partition b'=' piece)) [
        | none ↦ query
        | some (name, value) ↦ append_values query name (value ∷ [])
      ])
      pieces

-- `parse_qs(qs)`
unfoldable pub parse_qs : Text → Query
unfolding parse_pieces
parse_qs [] = []
parse_qs (c ∷ qs) = parse_pieces [] (split b'&' (c ∷ qs))

-- `sep.join(parts)`
unfoldable pub join : Text → List Text → Text
join sep [] = []
join sep (part ∷ []) = part
join sep (part ∷ other ∷ parts) = part ++ sep ++ join sep (other ∷ parts)

fields : Query → List Text
fields [] = []
fields ((name, values) ∷ query) =
    map (λ value. quote_plus name ++ b'=' ∷ quote_plus value) values ++ fields query

-- `urlencode(query, doseq=True)`
unfoldable pub urlencode : Query → Text
unfolding fields join
urlencode query = join (codes "&") (fields query)

abbrev behind_mark : ℕ → Text → Text
behind_mark mark [] = []
behind_mark mark (c ∷ s) = mark ∷ c ∷ s

abbrev from_root : Text → Text
from_root [] = []
from_root (c ∷ s) = if c == b'/' then c ∷ s else b'/' ∷ c ∷ s

-- `urlunsplit((scheme, netloc, path, query, fragment))`, where the scheme may have a host.
unfoldable pub urlunsplit : Text → Text → Text → Text → Text → Text
urlunsplit scheme netloc path query fragment =
    scheme
    ++ b':'
      ∷ ((if is_empty netloc && starts_with path (codes "//")
            then path
            else codes "//" ++ (netloc ++ from_root path))
          ++ (behind_mark b'?' query ++ behind_mark b'#' fragment))
