-- ===== src/Url.antt =====
-- What the program uses of `urllib.parse.urlsplit` and of `PurePosixPath`: the path of a URL and its
-- suffix. (`urlsplit` also refuses malformed hosts with a ValueError, which is not modelled.)
pub mod Percent
pub mod Query
pub mod Join
pub mod Quoted
use akari_proxy.Prelude.{
  ℕ, Bool, true, false, not, ◌&&◌, ◌||◌, Option, none, some, [], ◌∷◌, ◌++◌, leb, ◌==◌,
  if◌then◌else◌, within, length, is_empty, drop, all, keep, Text, text_eq, nat_eq, text_key,
}
use akari_proxy.Prelude.Str.{codes, lower, starts_with}

-- Control characters and blanks in front are dropped, tabs and line ends everywhere.
clean_front : Text → Text
clean_front [] = []
clean_front (c ∷ s) = if leb c 32 then clean_front s else c ∷ s

clean : Text → Text
unfolding clean_front
clean url = keep (λ c. not (c == 9 || c == 10 || c == 13)) (clean_front url)

-- What stands before the first `sep`, and what stands behind it if there is one.
unfoldable pub partition : ℕ → Text → Text × Option Text
partition sep [] = ([], none)
partition sep (c ∷ s) = elim (c == sep) [
  | true ↦ ([], some s)
  | false ↦ let (before, after) = partition sep s in (c ∷ before, after)
]

is_letter : ℕ → Bool
is_letter c = within 65 90 c || within 97 122 c

is_scheme_char : ℕ → Bool
unfolding is_letter
is_scheme_char c = is_letter c || within 48 57 c || c == 43 || c == 45 || c == 46

-- A scheme begins with a letter and has letters, digits, `+`, `-` and `.` only.
drop_scheme : Text → Text × Option Text → Text
unfolding is_scheme_char
drop_scheme url ([], after) = url
drop_scheme url (c ∷ scheme, none) = url
drop_scheme url (c ∷ scheme, some rest) =
    if is_letter c && all is_scheme_char scheme then rest else url

drop_netloc : Text → Text
drop_netloc [] = []
drop_netloc (c ∷ s) = if c == 47 || c == 63 || c == 35 then c ∷ s else drop_netloc s

scheme_of : Text × Option Text → Text
unfolding is_scheme_char
scheme_of ([], after) = []
scheme_of (c ∷ scheme, none) = []
scheme_of (c ∷ scheme, some rest) =
    if is_letter c && all is_scheme_char scheme then lower (c ∷ scheme) else []

-- `urlsplit(url).scheme`
unfoldable pub url_scheme : Text → Text
unfolding clean partition scheme_of
url_scheme url = let cleaned = clean url in scheme_of (partition 58 cleaned)

take_netloc : Text → Text
take_netloc [] = []
take_netloc (c ∷ s) =
    let rest = take_netloc s in if c == 47 || c == 63 || c == 35 then [] else c ∷ rest

-- `urlsplit(url).netloc`
unfoldable pub url_netloc : Text → Text
unfolding clean partition drop_scheme take_netloc
url_netloc url =
    let cleaned = clean url in
    let behind = drop_scheme cleaned (partition 58 cleaned) in
    if starts_with behind (codes "//") then take_netloc (drop 2 behind) else []

-- What stands behind the host, if there is one.
local_part : Text → Text
unfolding drop_netloc
local_part behind = if starts_with behind (codes "//") then drop_netloc (drop 2 behind) else behind

-- What stands behind the scheme and the host.
unfoldable pub url_rest : Text → Text
unfolding clean partition drop_scheme local_part
url_rest url = let cleaned = clean url in local_part (drop_scheme cleaned (partition 58 cleaned))

-- `urlsplit(url).path`
unfoldable pub url_path : Text → Text
unfolding url_rest
url_path url = (partition 63 (partition 35 (url_rest url)).0).0

-- The last part of a path; empty parts and `.` are no parts.
last_part : Text → Text → Text → Text
last_part last cur [] = if is_empty cur || text_eq cur (codes ".") then last else cur
last_part last cur (c ∷ s) = elim (c == 47) [
  | true ↦ last_part (if is_empty cur || text_eq cur (codes ".") then last else cur) [] s
  | false ↦ last_part last (cur ++ c ∷ []) s
]

-- From the last dot on, if there is one.
from_dot : Text → Option Text
from_dot [] = none
from_dot (c ∷ s) = elim (from_dot s) [
  | some suffix ↦ some suffix
  | none ↦ if c == 46 then some (c ∷ s) else none
]

-- The last dot of a name starts its suffix, unless it is the first or the last character.
name_suffix : Text → Text
unfolding from_dot
name_suffix [] = []
name_suffix (c ∷ name) = elim (from_dot name) [
  | none ↦ []
  | some suffix ↦ if leb (length suffix) 1 then [] else suffix
]

-- `PurePosixPath(path).suffix`
unfoldable pub path_suffix : Text → Text
unfolding last_part name_suffix
path_suffix path = name_suffix (last_part [] [] path)
