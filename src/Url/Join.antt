-- ===== src/Url/Join.antt =====
-- `urllib.parse.urljoin(base, url)` for a base of the scheme `http` or `https`.
use akari_proxy.Prelude.{
  Bool, true, false, not, ◌&&◌, ◌||◌, List, [], ◌∷◌, ◌++◌, ◌==◌, if◌then◌else◌, is_empty, Text,
  text_eq, nat_eq, text_key,
}
use mathlib.Core.List.{reverse, tail}
use akari_proxy.Prelude.Str.{codes, split, contains}
use akari_proxy.Url.{url_scheme, url_netloc, url_path}
use akari_proxy.Url.Query.{url_query, url_fragment, urlunsplit, join}

-- The parameters of a path: behind the first `;` that no `/` follows.
split_params : Text → Text × Text
split_params [] = ([], [])
split_params (c ∷ s) = elim (c == b';' && not (contains s (codes "/"))) [
  | true ↦ ([], s)
  | false ↦ let (path, params) = split_params s in (c ∷ path, params)
]

abbrev with_params : Text → Text → Text
with_params path [] = path
with_params path (c ∷ params) = path ++ b';' ∷ c ∷ params

-- The parts of the base without the last one, unless that is empty.
drop_file : List Text → List Text
drop_file [] = []
drop_file (part ∷ []) = if is_empty part then part ∷ [] else []
drop_file (part ∷ other ∷ parts) = part ∷ drop_file (other ∷ parts)

-- Empty parts are dropped but at the end.
drop_empty : List Text → List Text
drop_empty [] = []
drop_empty (part ∷ []) = part ∷ []
drop_empty (part ∷ other ∷ parts) =
    let rest = drop_empty (other ∷ parts) in if is_empty part then rest else part ∷ rest

abbrev middle : List Text → List Text
middle [] = []
middle (part ∷ parts) = part ∷ drop_empty parts

segments_of : Text → Text → List Text
unfolding drop_file drop_empty
segments_of base_path [] = middle (drop_file (split b'/' base_path) ++ split b'/' [])
segments_of base_path (c ∷ path) =
    if c == b'/'
    then split b'/' (c ∷ path)
    else middle (drop_file (split b'/' base_path) ++ split b'/' (c ∷ path))

-- One part on the stack of parts; at the end `.` and `..` leave an empty part.
push_part : List Text → Text → Bool → List Text
push_part stack part last =
    if text_eq part (codes "..")
    then (if last then [] ∷ tail stack else tail stack)
    else if text_eq part (codes ".")
    then (if last then [] ∷ stack else stack)
    else part ∷ stack

resolve : List Text → List Text → List Text
unfolding push_part
resolve stack [] = reverse stack
resolve stack (part ∷ parts) = resolve (push_part stack part (is_empty parts)) parts

abbrev or_root : Text → Text
or_root [] = codes "/"
or_root (c ∷ s) = c ∷ s

-- A reference with the scheme of the base and no host.
join_local : Text → Text → Text
unfolding split_params segments_of resolve
join_local base url =
    let (base_path, base_params) = split_params (url_path base) in
    let (path, params) = split_params (url_path url) in
    let query = url_query url in
    let fragment = url_fragment url in
    if is_empty path && is_empty params
    then urlunsplit (url_scheme base) (url_netloc base) (with_params base_path base_params)
        (if is_empty query then url_query base else query) fragment
    else urlunsplit (url_scheme base) (url_netloc base)
        (with_params (or_root (join (codes "/") (resolve [] (segments_of base_path path)))) params)
        query fragment

unfoldable pub urljoin : Text → Text → Text
unfolding join_local
urljoin base [] = base
urljoin base (c ∷ url) =
    let scheme = url_scheme (c ∷ url) in
    let (path, params) = split_params (url_path (c ∷ url)) in
    if not (is_empty scheme || text_eq scheme (url_scheme base))
    then c ∷ url
    else if is_empty (url_netloc (c ∷ url))
    then join_local base (c ∷ url)
    else urlunsplit (url_scheme base) (url_netloc (c ∷ url)) (with_params path params)
        (url_query (c ∷ url)) (url_fragment (c ∷ url))
