-- ===== src/Router/Static/Inside.antt =====
-- What the static handler reads.
use akari_proxy.Prelude.{
  ◌≡◌, refl, sym, ap, ap₂, ◌∙◌, subst, inl, inr, true, false, false≢true, ◌||◌, some, List, [], ◌∷◌,
  ◌++◌, arith, Bool-cases, Option-cases, some_inj, none≢some, &&-true, is_empty, All, Text, text_eq,
  text_eq_iff, nat_eq, text_key,
}
use mathlib.Core.List.{reverse, reverse_aux, tail}
use akari_proxy.Prelude.Str.{codes, starts_with, split}
use akari_proxy.Router.Proxy.{RouteResult}
use akari_proxy.Router.Static.{
  StaticDir, enter, enter_all, resolve_path, is_under, serve_static_file, serve_static_asset,
}

-- A part that is not empty and neither `.` nor `..`.
abbrev pub IsProper : Text → Type 0
IsProper part =
    (is_empty part ≡ false)
    × (text_eq part (codes ".") ≡ false)
    × (text_eq part (codes "..") ≡ false)

All-reverse_aux :
    (xs acc : List Text) → All IsProper xs → All IsProper acc → All IsProper (reverse_aux xs acc)
All-reverse_aux [] acc h k = k
All-reverse_aux (x ∷ xs) acc h k = All-reverse_aux xs (x ∷ acc) h.1 (h.0, k)

All-reverse : (xs : List Text) → All IsProper xs → All IsProper (reverse xs)
All-reverse xs h = All-reverse_aux xs [] h tt

All-tail : (xs : List Text) → All IsProper xs → All IsProper (tail xs)
All-tail [] h = h
All-tail (x ∷ xs) h = h.1

enter-All : (stack : List Text) (part : Text) → All IsProper stack → All IsProper (enter stack part)
unfolding enter
enter-All stack part h = elim (Bool-cases (is_empty part || text_eq part (codes "."))) [
  | inl e ↦ rw e h
  | inr e ↦ elim (Bool-cases (text_eq part (codes ".."))) [
    | inl f ↦ rw (e, f) (All-tail stack h)
    | inr f ↦ rw (e, f) ((ground arith, ground arith, f), h)
  ]
]

enter_all-All :
    (stack parts : List Text) → All IsProper stack → All IsProper (enter_all stack parts)
unfolding enter_all
enter_all-All stack [] h = All-reverse stack h
enter_all-All stack (part ∷ parts) h =
    enter_all-All (enter stack part) parts (enter-All stack part h)

resolve_path-All :
    (dir : List Text) (path : Text) → All IsProper dir → All IsProper (resolve_path dir path)
unfolding resolve_path
resolve_path-All dir path h = elim (Bool-cases (starts_with path (codes "/"))) [
  | inl e ↦ rw e (enter_all-All [] (split b'/' path) tt)
  | inr e ↦ rw e (enter_all-All (reverse dir) (split b'/' path) (All-reverse dir h))
]

is_under-split :
    (dir parts : List Text) → is_under dir parts ≡ true → (rest : List Text) × (parts ≡ dir ++ rest)
unfolding is_under
is_under-split [] parts h = (parts, refl)
is_under-split (d ∷ dir) [] h = absurd (false≢true h)
is_under-split (d ∷ dir) (p ∷ parts) h =
    let (same, under) = &&-true _ _ h in
    let (rest, e) = is_under-split dir parts under in
    (rest, ap₂ (λ x xs. x ∷ xs) (sym ((text_eq_iff d p).0 same)) e)

All-suffix : (xs ys : List Text) → All IsProper (xs ++ ys) → All IsProper ys
All-suffix [] ys h = h
All-suffix (x ∷ xs) ys h = All-suffix xs ys h.1

-- Where a file is served, it lies below the directory, and its path from there has no `..`.
abbrev Serves : StaticDir → RouteResult → Type 0
Serves static result =
    (rest : List Text) × (static.files (static.dir ++ rest) ≡ some result.body)
    × All IsProper rest
    × (result.status_code ≡ 200)

serve_static_file-Serves :
    (static : StaticDir) (path : Text) (result : RouteResult)
    → All IsProper static.dir
    → serve_static_file static path ≡ some result
    → Serves static result
unfolding serve_static_file
serve_static_file-Serves static path result h served =
    elim (Bool-cases (is_under static.dir (resolve_path static.dir path))) [
      | inr e ↦ absurd (none≢some (rw e at served))
      | inl e ↦ elim (Option-cases (static.files (resolve_path static.dir path))) [
        | inl found ↦ absurd (none≢some (rw (e, found) at served))
        | inr (body, found) ↦
            let (rest, split) = is_under-split static.dir _ e in
            let same = some_inj (rw (e, found) at served) in
            (
              rest,
              ap static.files (sym split) ∙ found ∙ ap (λ r. some r.body) same,
              All-suffix static.dir rest
                  (subst (All IsProper) split (resolve_path-All static.dir path h)),
              ap (λ r. r.status_code) (sym same),
            )
      ]
    ]

-- Whatever path is asked for, `..` and absolute paths included, a static answer is the content of a
-- file below the static directory, and the path from there to the file has no empty part, no `.` and
-- no `..`. There are no symbolic links; the directory itself is a resolved path.
pub serve_static_asset-Inside :
    (static : StaticDir) (raw_path : Text) (result : RouteResult)
    → All IsProper static.dir
    → serve_static_asset static raw_path ≡ some result
    → (rest : List Text) × (static.files (static.dir ++ rest) ≡ some result.body)
      × All IsProper rest
      × (result.status_code ≡ 200)
unfolding serve_static_asset
serve_static_asset-Inside static raw_path result h served =
    serve_static_file-Serves static _ result h served
