-- ===== src/Tests/Server.antt =====
-- The server's theorems at concrete inputs: py/akari/remote_proxy/handler.py.
use akari_proxy.Prelude.{
  ℕ, ◌≤◌, ◌≡◌, refl, Bool, true, false, none, some, List, [], ◌∷◌, ◌++◌, map, arith, leb,
  if◌then◌else◌, length, get_elem?, concat, All, Text, Bytes, text_eq, nat_eq, text_key,
}
use akari_proxy.Prelude.Dict.{get, put}
use akari_proxy.Prelude.Str.{codes, strip, lower, split_onto}
use akari_proxy.Exceptions.{Result, ok, raise, timeout_fetch_error}
use akari_proxy.Wire.{Datagram, resp_head_v3, Header, req, nack_body, decode, has_flag, set_flag}
use akari_proxy.Handler.Headers.{
  lower_keys, order_headers, shrink_headers, encode_header_block_limited,
}
use akari_proxy.Handler.Headers.Limited.{Takes, encode_header_block_limited_lem}
use akari_proxy.Handler.Split.{slices, split_body, split_caps, Fits, split_body_lem}
use akari_proxy.Handler.Sizes.{payload_cap, calc_payload_caps, max_datagram_size}
use akari_proxy.Handler.Nack.{bitmap_to_seq, bitmap_seqs, byte_seqs, handle_nack}
use akari_proxy.Handler.Nack.Resend.{handle_nack_body}
use akari_proxy.Handler.State.{IncomingRequest, HttpResponse, State, Clock}
use akari_proxy.Handler.Respond.{
  v3_flags, v3_chunks, bodies, bodies_agg, too_large, header_cap, success_datagrams,
}
use akari_proxy.Handler.Respond.Shape.{chunk_count, v3_answer, success_datagrams_v3}
use akari_proxy.Handler.Respond.Fit.{request_max, FitsInto, v3_answer-FitsInto}
use akari_proxy.Handler.Respond.Encrypted.{encrypted_bodies_lost}
use akari_proxy.Handler.HttpCache.{
  directives_of, cache_ttl_from_headers, purge_http_cache, get_cached_http_response,
  maybe_store_http_cache,
}
use akari_proxy.Handler.HttpCache.Freshness.{stored_served}
use akari_proxy.Handler.Requests.{safe_message, encode_error, handle_request}
use akari_proxy.Handler.Requests.Errors.{Reports, encode_error-Reports}
use akari_proxy.Handler.Requests.Answers.{cached_without_fetch}

-- A stand-in for the HMAC.
abbrev hmac : Bytes → Bytes → Bytes
hmac key message = key ++ message

abbrev header_of : ℕ → Header
header_of flags = record {
  version = 3;
  flags = flags;
  message_id = 7;
  seq_total = 1;
  timestamp = 0;
}

abbrev url : Text
url = codes "http://a.b/"

-- 133 bytes are the least size of a datagram: one byte of the body in each packet.
abbrev request_of : ℕ → IncomingRequest
request_of flags = record {
  header = header_of flags;
  payload = req url;
  psk = 1 ∷ [];
  buffer_size = none;
  payload_max = some 133;
}

abbrev page : HttpResponse
page = record {
  status_code = 200;
  headers = (codes "ETag", codes "x") ∷ [];
  body = 10 ∷ 20 ∷ 30 ∷ [];
}

abbrev clock : Clock
clock = record { at_start = 5; at_store = 6; at_encode = 7; at_cache = 8; at_purge = 9 }

abbrev empty : State
empty = record { resp_cache = []; http_cache = []; require_encryption = true }

split_body_example :
    let r = split_body (1 ∷ 2 ∷ 3 ∷ []) none 0 (some 133) 3 0x40 true in
    let caps = split_caps none 0 (some 133) 3 0x40 true in
    (r.0 ++ concat r.1 ≡ 1 ∷ 2 ∷ 3 ∷ []) × (length r.0 ≤ caps.0) × All (Fits caps.1) r.1
split_body_example = split_body_lem (1 ∷ 2 ∷ 3 ∷ []) none 0 (some 133) 3 0x40 true

limited_example :
    (block : Bytes) × (truncated : Bool) × (encode_header_block_limited page.headers 3
      ≡ ok (block, truncated))
    × Takes 3 [] (order_headers page.headers) block truncated
limited_example = encode_header_block_limited_lem page.headers 3

success_datagrams_v3_example :
    (block : Bytes) × (truncated : Bool) × Takes
      (header_cap (request_of 0))
      []
      (order_headers (shrink_headers 256 page.headers))
      block
      truncated
    × (success_datagrams hmac (request_of 0) page 0 ≡ (
        if leb (chunk_count (request_of 0) page.body) 0xffff
        then ok (v3_answer hmac (request_of 0) page block)
        else raise (
            too_large
              (codes "body requires")
              (chunk_count (request_of 0) page.body)
              (codes "65535")
              (request_of 0))))
success_datagrams_v3_example = success_datagrams_v3 hmac (request_of 0) page 0 refl

fits_example : All (FitsInto (request_max (request_of 0))) (v3_answer hmac (request_of 0) page [])
unfolding max_datagram_size
fits_example = v3_answer-FitsInto hmac (request_of 0) page [] refl (omega arith) (omega arith)

encrypted_example :
    let chunks = v3_chunks (request_of 0x80) page.body in
    All
      (λ d. decode d ≡ none)
      (bodies hmac (request_of 0x80) chunks (length chunks) (v3_flags (request_of 0x80) 3))
encrypted_example = encrypted_bodies_lost hmac (request_of 0x80) page (unfold has_flag in refl)

-- The answer is kept for the NACK: a head and three bodies.
abbrev kept : State
kept = record empty { resp_cache = (7, (8, v3_answer hmac (request_of 0) page [])) ∷ [] }

abbrev nack_request : IncomingRequest
nack_request = record (request_of 0) { payload = nack_body (5 ∷ []) }

abbrev page_bodies : List Datagram
page_bodies =
    let chunks = v3_chunks (request_of 0) page.body in
    bodies hmac (request_of 0) chunks (length chunks) (v3_flags (request_of 0) 3)

abbrev head : Datagram
head = resp_head_v3 200 [] 3 1 0 3 (v3_flags (request_of 0) 3) 7 (1 ∷ [])

handle_nack_example :
    map some (handle_nack nack_request kept) ≡ map (get_elem? page_bodies) (bitmap_to_seq (5 ∷ []))
unfolding bitmap_to_seq bitmap_seqs byte_seqs bodies bodies_agg v3_chunks split_body split_caps
    slices calc_payload_caps payload_cap max_datagram_size v3_flags has_flag set_flag get
handle_nack_example =
    handle_nack_body nack_request kept (5 ∷ []) 8 head page_bodies refl refl
      (omega arith, (omega arith, tt))

abbrev cached : State
cached = record empty { http_cache = (url, (100, page)) ∷ []; require_encryption = false }

stored_served_example :
    (get_cached_http_response url 20
      (purge_http_cache 20 (maybe_store_http_cache url page 10 empty))).0
    ≡ some page
unfolding text_eq
stored_served_example =
    stored_served url page 10 30_000_000 20 empty (omega arith)
      (unfold cache_ttl_from_headers lower_keys lower get put directives_of strip split_onto in
        refl)
      (omega arith) (omega arith)

abbrev broken : HttpResponse
broken = record { status_code = 503; headers = []; body = [] }

error_example :
    Reports
      (request_of 0)
      10
      400
      (safe_message (codes "no"))
      (encode_error (request_of 0) 10 400 (codes "no"))
    × (length (safe_message (codes "no")) ≤ 200)
error_example = encode_error-Reports (request_of 0) 10 400 (codes "no")

abbrev fetch_page : Text → Result HttpResponse
fetch_page u = ok page

abbrev fetch_nothing : Text → Result HttpResponse
fetch_nothing u = raise (timeout_fetch_error [])

cached_example :
    handle_request hmac fetch_page (request_of 0) clock cached
    ≡ handle_request hmac fetch_nothing (request_of 0) clock cached
unfolding text_eq
cached_example =
    cached_without_fetch hmac fetch_page fetch_nothing (request_of 0) b'h' (codes "ttp://a.b/")
      clock cached 100 page refl (unfold get strip in refl) (omega arith)
