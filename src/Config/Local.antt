-- ===== src/Config/Local.antt =====
-- py/local_proxy/config.py.
use akari_proxy.Prelude.{Bool, true, Option, none, some, [], ◌++◌, or_else, Text, nat_eq, text_key}
use akari_proxy.Prelude.Dict.{Dict, get}
use akari_proxy.Prelude.Str.{codes}
use akari_proxy.Exceptions.{Result, ok, raise, ◌>>=◌, config_error}
use akari_proxy.ContentFilter.{ContentFilterSettings}
use akari_proxy.Config.{Floats, Table, a_bool}

pub record LocalProxyConfig : Type 0 where
  pub content_filter : ContentFilterSettings

module _ (floats : Floats) where
  unfoldable pub require_switch : Table floats → Text → Bool → Result Bool
  require_switch table key default = elim (get table key) [
    | none ↦ ok default
    | some v ↦ a_bool floats (key ++ codes " must be a boolean (true/false)") v
  ]

  unfoldable pub load_local_config :
      Text → Option (Dict Text (Table floats)) → Result LocalProxyConfig
  unfolding require_switch
  load_local_config path none =
      raise (config_error (codes "configuration file not found: " ++ path))
  load_local_config path (some sections) = do
    let table = or_else (get sections (codes "content_filter")) []
    enable_js ← require_switch table (codes "enable_js") true
    enable_css ← require_switch table (codes "enable_css") true
    enable_img ← require_switch table (codes "enable_img") true
    enable_other ← require_switch table (codes "enable_other") true
    ok (record {
      content_filter = record {
        enable_js = enable_js;
        enable_css = enable_css;
        enable_img = enable_img;
        enable_other = enable_other;
      };
    })
