-- ===== src/Router/Static.antt =====
-- `_serve_static_asset` and `_serve_static_file`. A directory is the list of its parts from the root;
-- `files` gives the content of each regular file. Symbolic links are not modelled, so that `resolve`
-- is a matter of the path alone.
pub mod Inside
use akari_proxy.Prelude.{
  ◌+◌, ◌-◌, ◌/◌, Bool, true, false, ◌&&◌, ◌||◌, Option, none, some, List, [], ◌∷◌, ◌++◌, ◌==◌,
  if◌then◌else◌, or_else, is_empty, Text, Bytes, text_eq, nat_eq, text_key,
}
use mathlib.Core.List.{reverse, tail}
use akari_proxy.Prelude.Str.{codes, starts_with, split}
use akari_proxy.Router.Proxy.{RouteResult}

pub record StaticDir : Type 0 where
  pub dir : List Text
  pub entry_file : Text
  pub files : List Text → Option Bytes
  pub guess_type : List Text → Option Text

-- `s.lstrip("/")`
unfoldable pub strip_slashes : Text → Text
strip_slashes [] = []
strip_slashes (c ∷ s) = if c == b'/' then strip_slashes s else c ∷ s

-- One part on the stack of parts.
enter : List Text → Text → List Text
enter stack part =
    if is_empty part || text_eq part (codes ".")
    then stack
    else if text_eq part (codes "..")
    then tail stack
    else part ∷ stack

enter_all : List Text → List Text → List Text
unfolding enter
enter_all stack [] = reverse stack
enter_all stack (part ∷ parts) = enter_all (enter stack part) parts

-- `(static_dir / relative_path).resolve()`: an absolute path takes the place of the directory.
unfoldable pub resolve_path : List Text → Text → List Text
unfolding enter_all
resolve_path dir relative_path =
    enter_all (if starts_with relative_path (codes "/") then [] else reverse dir)
      (split b'/' relative_path)

-- `candidate.relative_to(dir)`, which fails unless the parts of `dir` come first.
unfoldable pub is_under : List Text → List Text → Bool
is_under [] parts = true
is_under (d ∷ dir) [] = false
is_under (d ∷ dir) (p ∷ parts) = text_eq d p && is_under dir parts

abbrev pub file_response : Option Text → Bytes → RouteResult
file_response guessed body =
    let mime_type = or_else guessed (codes "application/octet-stream") in
    record {
      status_code = 200;
      body = body;
      headers =
          (
            codes "Content-Type",
            (if starts_with mime_type (codes "text/")
                then mime_type ++ codes "; charset=utf-8"
                else mime_type),
          )
          ∷ [];
    }

unfoldable pub serve_static_file : StaticDir → Text → Option RouteResult
unfolding resolve_path is_under
serve_static_file static relative_path =
    let candidate = resolve_path static.dir relative_path in
    if is_under static.dir candidate
    then elim (static.files candidate) [
      | none ↦ none
      | some body ↦ some (file_response (static.guess_type candidate) body)
    ]
    else none

unfoldable pub serve_static_asset : StaticDir → Text → Option RouteResult
unfolding strip_slashes serve_static_file
serve_static_asset static raw_path =
    let relative = strip_slashes raw_path in
    serve_static_file static (if is_empty relative then static.entry_file else relative)
