-- ===== src/Handler/State.antt =====
-- The data of handler.py: a request as the server hands it over (`IncomingRequest` of
-- py/akari/udp_server.py), a fetched response, and the module's state. Times are microseconds of
-- `time.time()`.
use akari_proxy.Prelude.{
  ℕ, ◌+◌, ◌*◌, Bool, Option, List, [], ltb, keep, not, Text, Bytes, text_key, nat_eq,
}
use akari_proxy.Prelude.Dict.{Dict, put}
use akari_proxy.Wire.{Datagram, Header, Payload}
use akari_proxy.Handler.Headers.{Headers}

pub record IncomingRequest : Type 0 where
  pub header : Header
  pub payload : Payload
  pub psk : Bytes
  pub buffer_size : Option ℕ
  pub payload_max : Option ℕ

pub record HttpResponse : Type 0 where
  pub status_code : ℕ
  pub headers : Headers
  pub body : Bytes

abbrev pub second : ℕ
second = 1_000_000

abbrev pub resp_cache_ttl : ℕ
resp_cache_ttl = 5 * second

abbrev pub http_cache_default_ttl : ℕ
http_cache_default_ttl = 30 * second

-- `RESP_CACHE` holds when an answer was made and its datagrams, `HTTP_CACHE` when a response expires.
pub record State : Type 0 where
  pub resp_cache : Dict ℕ (ℕ × List Datagram)
  pub http_cache : Dict Text (ℕ × HttpResponse)
  pub require_encryption : Bool

-- The readings of the clock while one request is handled, in their order.
pub record Clock : Type 0 where
  pub at_start : ℕ
  pub at_store : ℕ
  pub at_encode : ℕ
  pub at_cache : ℕ
  pub at_purge : ℕ

unfoldable pub set_require_encryption : Bool → State → State
set_require_encryption flag s = record s { require_encryption = flag }

unfoldable pub clear_caches : State → State
clear_caches s = record s { resp_cache = []; http_cache = [] }

unfoldable pub purge_resp_cache : ℕ → State → State
purge_resp_cache now s = record s {
  resp_cache = keep (λ e. not (ltb (e.1.0 + resp_cache_ttl) now)) s.resp_cache;
}

-- `RESP_CACHE[message_id] = (time.time(), datagrams); _purge_resp_cache()`
unfoldable pub remember : ℕ → List Datagram → Clock → State → State
unfolding purge_resp_cache
remember message_id datagrams clock s =
    purge_resp_cache clock.at_purge
      (record s { resp_cache = put s.resp_cache message_id (clock.at_cache, datagrams) })
