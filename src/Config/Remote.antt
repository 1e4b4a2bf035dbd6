-- ===== src/Config/Remote.antt =====
-- py/akari/remote_proxy/config.py. What the environment and the files hold are arguments.
pub mod Keys
pub mod Accepted
use akari_proxy.Prelude.{
  ◌+◌, ◌-◌, Bool, true, false, not, Option, none, some, List, [], ◌∷◌, ◌++◌, if◌then◌else◌, or_else,
  within, is_empty, keep, Text, Bytes, text_eq, nat_eq, text_key,
}
use akari_proxy.Prelude.Dict.{Dict, get, has}
use akari_proxy.Prelude.Decimal.{ℤ, pos}
use akari_proxy.Prelude.Str.{codes, strip}
use akari_proxy.Exceptions.{Result, ok, raise, ◌>>=◌, config_error}
use akari_proxy.Utf8
use akari_proxy.Config.{
  Floats, Table, from_hex, int_or, float_or, require_str, require_port, require_int, require_bool,
  optional_float, truth,
}

pub record RemoteProxyConfig (Float : Type 0) : Type 0 where
  pub host : Text
  pub port : ℤ
  pub psk : Bytes
  pub timeout : Option Float
  pub buffer_size : ℤ
  pub log_level : Text
  pub require_encryption : Bool
  pub protocol_version : ℤ
  pub agg_tag : Bool
  pub payload_max : ℤ
  pub df : Bool
  pub plpmtud : Bool
  pub initial_request_retries : ℤ
  pub max_nack_rounds : ℤ
  pub first_seq_timeout : Float
  pub sock_timeout : Float

-- Where a key may stand: `os.environ`, and the texts of the files. A name stands for a path, taken from
-- the directory of the configuration unless it is absolute.
pub record Host : Type 0 where
  pub environ : Text → Option Text
  pub path_of : Text → Text
  pub read_text : Text → Option Text

-- `s.upper()` of an ASCII text
unfoldable pub upper : Text → Text
upper [] = []
upper (c ∷ s) = (if within 97 122 c then c - 32 else c) ∷ upper s

-- `parse_psk`: the bytes of a key that is not empty.
unfoldable pub psk_bytes : Bool → Text → Result Bytes
psk_bytes false raw = ok (Utf8.encode raw)
psk_bytes true raw = elim (from_hex raw) [
  | none ↦ raise (config_error (codes "psk_hex true but value is not valid hex"))
  | some psk ↦ ok psk
]

abbrev pub found : Text → Text → Option Text → Result Text
found missing empty none = raise (config_error missing)
found missing empty (some text) =
    if is_empty (strip text) then raise (config_error empty) else ok (strip text)

abbrev pub psk_sources : List Text
psk_sources = codes "psk" ∷ codes "psk_file" ∷ codes "psk_env" ∷ []

module _ (floats : Floats) (host : Host) where
  -- The text of the key from the one source that is named.
  unfoldable pub raw_psk : Table floats → List Text → Result Text
  raw_psk table [] =
      raise (config_error (codes "server.psk, server.psk_file or server.psk_env is required"))
  raw_psk table (source ∷ []) =
      if text_eq source (codes "psk")
      then require_str floats table (codes "psk") none
      else if text_eq source (codes "psk_file")
      then (do
        relative ← require_str floats table (codes "psk_file") none
        found (codes "psk_file not found: " ++ host.path_of relative) (codes "psk_file is empty")
            (host.read_text (host.path_of relative)))
      else (do
        env_key ← require_str floats table (codes "psk_env") none
        found (codes "environment variable " ++ (env_key ++ codes " is not set"))
            (env_key ++ codes " must not be empty") (host.environ env_key))
  raw_psk table (first ∷ second ∷ sources) =
      raise (config_error (codes "psk, psk_file and psk_env are mutually exclusive"))

  abbrev pub hex_mode : Table floats → Bool
  hex_mode table = elim (get table (codes "psk_hex")) [ none ↦ false | some v ↦ truth floats v ]

  unfoldable pub resolve_psk : Table floats → Result Bytes
  unfolding raw_psk psk_bytes
  resolve_psk table = raw_psk table (keep (has table) psk_sources) >>= psk_bytes (hex_mode table)

  -- `None if timeout_raw is not None and timeout_raw <= 0 else timeout_raw`
  abbrev pub clear_timeout : Option floats.Float → Option floats.Float
  clear_timeout none = none
  clear_timeout (some timeout) = if floats.at_most_zero timeout then none else some timeout

  unfoldable pub server_config : Table floats → Result (RemoteProxyConfig floats.Float)
  unfolding resolve_psk upper
  server_config table = do
    host ← require_str floats table (codes "host") (some (codes "0.0.0.0"))
    port ← require_port floats table (codes "port") (some (pos 14500))
    timeout_raw ← optional_float floats table (codes "timeout")
    buffer_size ← require_int floats table (codes "buffer_size") (some (pos 65535))
    log_level ← require_str floats table (codes "log_level") (some (codes "INFO"))
    psk ← resolve_psk table
    require_encryption ← require_bool floats table (codes "require_encryption") false
    protocol_version ← int_or floats table (codes "protocol_version") (pos 2)
    agg_tag ← require_bool floats table (codes "agg_tag") true
    payload_max ← int_or floats table (codes "payload_max") (pos 1200)
    df ← require_bool floats table (codes "df") true
    plpmtud ← require_bool floats table (codes "plpmtud") false
    initial_request_retries ← int_or floats table (codes "initial_request_retries") (pos 1)
    max_nack_rounds ← int_or floats table (codes "max_nack_rounds") (pos 2)
    first_seq_timeout ← float_or floats table (codes "first_seq_timeout") floats.half
    sock_timeout ← float_or floats table (codes "sock_timeout") floats.one
    ok (record {
      host = host;
      port = port;
      psk = psk;
      timeout = clear_timeout timeout_raw;
      buffer_size = buffer_size;
      log_level = upper log_level;
      require_encryption = require_encryption;
      protocol_version = protocol_version;
      agg_tag = agg_tag;
      payload_max = payload_max;
      df = df;
      plpmtud = plpmtud;
      initial_request_retries = initial_request_retries;
      max_nack_rounds = max_nack_rounds;
      first_seq_timeout = first_seq_timeout;
      sock_timeout = sock_timeout;
    })

  -- `load_config` of a file that was read; `none` is a file that does not exist.
  unfoldable pub load_remote_config :
      Text → Option (Dict Text (Table floats)) → Result (RemoteProxyConfig floats.Float)
  unfolding server_config
  load_remote_config path none =
      raise (config_error (codes "configuration file not found: " ++ path))
  load_remote_config path (some sections) =
      server_config (or_else (get sections (codes "server")) [])
