-- ===== src/Router/Rewriting/Patterns.antt =====
-- The patterns of the rewriters leave no match empty.
use akari_proxy.Prelude.{List, ◌∷◌, nat_eq, text_key}
use akari_proxy.Prelude.Dict.{Dict}
use akari_proxy.Prelude.Pattern.{Item}
use akari_proxy.Router.Rewriting.{
  css_pattern, js_patterns, attr_pattern, srcset_pattern, meta_refresh_pattern,
}

abbrev pub patterns : List (List Item)
patterns = css_pattern ∷ attr_pattern ∷ srcset_pattern ∷ meta_refresh_pattern ∷ js_patterns
