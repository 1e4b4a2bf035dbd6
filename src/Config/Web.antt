-- ===== src/Config/Web.antt =====
-- py/akari/web_proxy/config.py.
use akari_proxy.Prelude.{
  Bool, true, false, not, Option, none, some, [], ◌∷◌, ◌++◌, ◌==◌, if◌then◌else◌, or_else, keep,
  Text, Bytes, nat_eq, text_key,
}
use akari_proxy.Prelude.Dict.{Dict, get}
use akari_proxy.Prelude.Decimal.{ℤ, pos}
use akari_proxy.Prelude.Str.{codes, one_of}
use akari_proxy.Exceptions.{Result, ok, raise, ◌>>=◌, type_error, config_error}
use akari_proxy.Utf8
use akari_proxy.ContentFilter.{ContentFilterSettings}
use akari_proxy.Config.{
  Floats, Toml, string, other, Table, from_hex, int_or, float_or, require_str, require_port,
  require_bool, require_float,
}

pub record UiConfig : Type 0 where
  pub portal_title : Text
  pub welcome_message : Text

-- The remote proxy as the web proxy knows it.
pub record RemoteConfig (Float : Type 0) : Type 0 where
  pub host : Text
  pub port : ℤ
  pub psk : Bytes
  pub timeout : Option Float
  pub protocol_version : ℤ
  pub agg_tag : Bool
  pub payload_max : ℤ
  pub df : Bool
  pub plpmtud : Bool
  pub initial_request_retries : ℤ
  pub max_nack_rounds : ℤ
  pub first_seq_timeout : Float
  pub sock_timeout : Float
  pub use_rust_client : Bool

pub record WebProxyConfig (Float : Type 0) : Type 0 where
  pub listen_host : Text
  pub listen_port : ℤ
  pub mode : Text
  pub ui : UiConfig
  pub remote : RemoteConfig Float
  pub content_filter : ContentFilterSettings

-- `s.replace(" ", "")`
abbrev without_spaces : Text → Text
without_spaces s = keep (λ c. not (c == 32)) s

abbrev key_bytes : Bool → Text → Result Bytes
key_bytes false psk_value = ok (Utf8.encode psk_value)
key_bytes true psk_value = elim (from_hex (without_spaces psk_value)) [
  | none ↦ raise (config_error (codes "psk must be a valid hex string when psk_hex=true"))
  | some psk ↦ ok psk
]

module _ (floats : Floats) where
  unfoldable pub parse_psk : Table floats → Result Bytes
  parse_psk table = do
    psk_value ← require_str floats table (codes "psk") (some (codes "test-psk-0000-test"))
    as_hex ← require_bool floats table (codes "psk_hex") false
    key_bytes as_hex psk_value

  -- Only the two modes are accepted, and they are texts; arrays and tables have no hash.
  unfoldable pub mode_of : Option (Toml floats.Float) → Result Text
  mode_of none = ok (codes "web")
  mode_of (some (string s)) =
      if one_of (codes "web" ∷ codes "reverse" ∷ []) s
      then ok s
      else raise (config_error (codes "proxy.mode must be 'web' or 'reverse'"))
  mode_of (some (other truth)) = raise (type_error [])
  mode_of (some v) = raise (config_error (codes "proxy.mode must be 'web' or 'reverse'"))

  unfoldable pub remote_config : Table floats → Result (RemoteConfig floats.Float)
  unfolding parse_psk
  remote_config table = do
    timeout_value ← require_float floats table (codes "timeout") (some floats.nought)
    host ← require_str floats table (codes "host") (some (codes "127.0.0.1"))
    port ← require_port floats table (codes "port") (some (pos 9000))
    psk ← parse_psk table
    protocol_version ← int_or floats table (codes "protocol_version") (pos 3)
    agg_tag ← require_bool floats table (codes "agg_tag") true
    payload_max ← int_or floats table (codes "payload_max") (pos 1200)
    df ← require_bool floats table (codes "df") true
    plpmtud ← require_bool floats table (codes "plpmtud") false
    initial_request_retries ← int_or floats table (codes "initial_request_retries") (pos 1)
    max_nack_rounds ← int_or floats table (codes "max_nack_rounds") (pos 2)
    first_seq_timeout ← float_or floats table (codes "first_seq_timeout") floats.half
    sock_timeout ← float_or floats table (codes "sock_timeout") floats.one
    use_rust_client ← require_bool floats table (codes "use_rust_client") true
    ok (record {
      host = host;
      port = port;
      psk = psk;
      timeout = (if floats.at_most_zero timeout_value then none else some timeout_value);
      protocol_version = protocol_version;
      agg_tag = agg_tag;
      payload_max = payload_max;
      df = df;
      plpmtud = plpmtud;
      initial_request_retries = initial_request_retries;
      max_nack_rounds = max_nack_rounds;
      first_seq_timeout = first_seq_timeout;
      sock_timeout = sock_timeout;
      use_rust_client = use_rust_client;
    })

  unfoldable pub filter_config : Table floats → Result ContentFilterSettings
  filter_config table = do
    enable_js ← require_bool floats table (codes "enable_js") true
    enable_css ← require_bool floats table (codes "enable_css") true
    enable_img ← require_bool floats table (codes "enable_img") true
    enable_other ← require_bool floats table (codes "enable_other") true
    ok (record {
      enable_js = enable_js;
      enable_css = enable_css;
      enable_img = enable_img;
      enable_other = enable_other;
    })

  unfoldable pub load_web_config :
      Text → Option (Dict Text (Table floats)) → Result (WebProxyConfig floats.Float)
  unfolding mode_of remote_config filter_config
  load_web_config path none = raise (config_error (codes "configuration file not found: " ++ path))
  load_web_config path (some sections) = do
    let proxy_data = or_else (get sections (codes "proxy")) []
    listen_host ← require_str floats proxy_data (codes "listen_host") (some (codes "127.0.0.1"))
    listen_port ← require_port floats proxy_data (codes "listen_port") (some (pos 8080))
    mode ← mode_of (get proxy_data (codes "mode"))
    let ui_data = or_else (get sections (codes "ui")) []
    portal_title ←
        require_str floats ui_data (codes "portal_title") (some (codes "AKARI Web Proxy"))
    welcome_message ←
        require_str floats ui_data (codes "welcome_message") (some (codes "AKARI Web Proxy へようこそ"))
    remote ← remote_config (or_else (get sections (codes "remote")) [])
    content_filter ← filter_config (or_else (get sections (codes "content_filter")) [])
    ok (record {
      listen_host = listen_host;
      listen_port = listen_port;
      mode = mode;
      ui = record { portal_title = portal_title; welcome_message = welcome_message };
      remote = remote;
      content_filter = content_filter;
    })
