-- ===== src/Tests/Processes.antt =====
-- The theorems on the configuration, the asynchronous server and the native client at concrete inputs.
use akari_proxy.Prelude.{
  ℕ, ◌≡◌, refl, true, false, none, some, List, [], ◌∷◌, map, arith, ◌==◌, if◌then◌else◌, keep, Text,
  Bytes, text_eq, nat_eq, text_key,
}
use akari_proxy.Prelude.Dict.{Dict, get}
use akari_proxy.Prelude.Decimal.{ℤ, pos, negsuc, parse_int}
use akari_proxy.Prelude.Str.{codes, starts_with, strip}
use akari_proxy.Exceptions.{Result, ok, raise, value_error}
use akari_proxy.Wire.{Packet, error_v3}
use akari_proxy.Fetching.{request_packet}
use akari_proxy.Handler.State.{State}
use akari_proxy.Client.RustBacked.{RustReply, replied, RustArgs, rust_send_request}
use akari_proxy.Config.{
  Floats, Toml, string, integer, from_hex, to_int, int_or, float_or, require_str, require_port,
  require_int, require_bool, optional_float,
}
use akari_proxy.Config.Remote.{
  RemoteProxyConfig, Host, server_config, resolve_psk, raw_psk, psk_bytes, upper,
  load_remote_config,
}
use akari_proxy.Config.Remote.Accepted.{Accepted, load_remote_config-Accepted}
use akari_proxy.ContentFilter.{ContentFilterSettings}
use akari_proxy.Router.Proxy.{proxy_target}
use akari_proxy.Router.Proxy.Native.{Conveys, proxy_target-Conveys}
use akari_proxy.Server.{reliable, until_failure}
use akari_proxy.Prelude.{false}
use akari_proxy.Server.Async.{
  Handler, AsyncSettings, Incoming, connection_reset, bytes, recv_loop, arrivals_of,
  serve_remote_proxy, is_v3,
}
use akari_proxy.Server.Async.Agreement.{server_of, recv_loop-serve_remote_proxy}
use akari_proxy.Server.Pool.{
  SessionPool, new_pool, start, enqueue_new, enqueue_times, got, acquire, recycle, Lending, taken,
  returned, started, stepped,
}
use akari_proxy.Server.Pool.Supply.{acquire-got}

abbrev allowing : ContentFilterSettings
allowing = record { enable_js = true; enable_css = true; enable_img = true; enable_other = true }

-- Numbers in thousandths.
abbrev thousandths : Floats
thousandths = record {
  Float = ℤ;
  of_int = λ n. ok n;
  of_text = λ s. none;
  truncated = λ n. ok n;
  at_most_zero = λ x. elim x [ pos n ↦ n == 0 | negsuc n ↦ true ];
  is_zero = λ x. elim x [ pos n ↦ n == 0 | negsuc n ↦ false ];
  nought = pos 0;
  half = pos 500;
  one = pos 1000;
}

abbrev host : Host
host = record {
  environ = λ name. some (codes " 0a 0B\n");
  path_of = λ name. name;
  read_text = λ path. none;
}

abbrev server_section : Dict Text (Toml ℤ)
server_section =
    (codes "port", string (codes "9000"))
    ∷ (codes "psk_env", string (codes "KEY"))
    ∷ (codes "psk_hex", integer (pos 1))
    ∷ []

abbrev loaded : RemoteProxyConfig ℤ
loaded = record {
  host = codes "0.0.0.0";
  port = pos 9000;
  psk = 10 ∷ 11 ∷ [];
  timeout = none;
  buffer_size = pos 65535;
  log_level = codes "INFO";
  require_encryption = false;
  protocol_version = pos 2;
  agg_tag = true;
  payload_max = pos 1200;
  df = true;
  plpmtud = false;
  initial_request_retries = pos 1;
  max_nack_rounds = pos 2;
  first_seq_timeout = pos 500;
  sock_timeout = pos 1000;
}

config_loaded :
    load_remote_config thousandths host
      (codes "remote.toml")
      (some ((codes "server", server_section) ∷ []))
    ≡ ok loaded
unfolding load_remote_config server_config get text_eq require_str require_port require_int
    require_bool optional_float int_or float_or to_int resolve_psk raw_psk psk_bytes from_hex strip
    parse_int upper
config_loaded = refl

config_example : Accepted thousandths host server_section loaded
unfolding get text_eq
config_example =
    load_remote_config-Accepted thousandths host (codes "remote.toml")
      ((codes "server", server_section) ∷ []) loaded config_loaded

abbrev decode_v3 : Bytes → Result Packet
decode_v3 data_ =
    if is_v3 data_ then ok (request_packet (codes "http://b/") 7 0) else raise (value_error [])

abbrev async_settings : AsyncSettings
async_settings = record { psk = []; buffer_size = 1000; payload_max = some 1200; plpmtud = true }

abbrev answers : Handler
answers request s =
    (ok (error_v3 (codes "x") 1 502 request.header.message_id 0 request.psk ∷ []), s)

abbrev fails : Handler
fails request s = (raise (value_error []), s)

abbrev arrivals : List (Handler × Incoming)
arrivals =
    (answers, bytes (0 ∷ 0 ∷ 3 ∷ []))
    ∷ (answers, bytes (0 ∷ []))
    ∷ (answers, connection_reset)
    ∷ (fails, bytes (0 ∷ 0 ∷ 3 ∷ []))
    ∷ []

abbrev empty : State
empty = record { resp_cache = []; http_cache = []; require_encryption = false }

agreement_example :
    let served =
      serve_remote_proxy
        (server_of async_settings)
        (some (pos 1500))
        reliable
        (arrivals_of decode_v3 decode_v3 arrivals)
        empty in
    (recv_loop decode_v3 decode_v3 async_settings (some (pos 1500)) (λ d. false) arrivals empty
      ≡ (map (keep (λ d. false)) served.0, served.1))
    × (serve_remote_proxy
          (server_of async_settings)
          (some (pos 1500))
          (λ d. false)
          (arrivals_of decode_v3 decode_v3 arrivals)
          empty
        ≡ (map (until_failure (λ d. false)) served.0, served.1))
agreement_example =
    recv_loop-serve_remote_proxy decode_v3 decode_v3 async_settings (some (pos 1500)) (λ d. false)
      (omega arith) (λ data_ v3 p. (λ h. h, λ h. h)) arrivals empty

abbrev filled : Lending
filled = record { pool = recycle 0 true (record (start (new_pool 0)) { queue = [] }); lent = [] }

pool_example : (session : ℕ) × (after : SessionPool) × (acquire filled.pool ≡ got session after)
unfolding start enqueue_times enqueue_new new_pool acquire recycle
pool_example =
    acquire-got 0 filled (stepped (stepped started (taken refl)) (returned [] [] 0 true)) refl
      (omega arith)

abbrev rust_args : RustArgs
rust_args = record {
  timeout = none;
  max_nack_rounds = some 2;
  initial_request_retries = 1;
  sock_timeout = 1_000_000;
  first_seq_timeout = 500_000;
  df = true;
  agg_tag = true;
  payload_max = some 1200;
  short_id = false;
}

abbrev page_reply : RustReply
page_reply =
    replied 200 [] (5 ∷ [])
      (record { bytes_sent = 60; bytes_received = 90; nacks_sent = 0; request_retries = 1 })

rust_example : Conveys (codes "http://b/") 7 page_reply (
    proxy_target allowing
      (λ u. ok (rust_send_request (λ c u. page_reply) rust_args u 7))
      (codes "http://b/")
      true)
rust_example =
    proxy_target-Conveys allowing (λ c u. page_reply) rust_args 7 (codes "http://b/") true
      (unfold starts_with in refl) refl
