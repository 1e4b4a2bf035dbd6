-- ===== src/Client/Loop/Arrivals.antt =====
-- The datagrams of a v3 answer as they come in at the client.
use akari_proxy.Prelude.{
  ℕ, zero, suc, ◌+◌, ◌≡◌, Bool, true, false, ◌||◌, Option, none, some, List, [], ◌∷◌, arith, ◌==◌,
  if◌then◌else◌, length, get_elem?, concat, Bytes, nat_eq, text_key,
}
use akari_proxy.Prelude.Str.{codes}
use akari_proxy.Exceptions.{Result, ok, raise, value_error}
use akari_proxy.Wire.{
  Datagram, Packet, Header, resp_body, resp_body_v3_agg, decode, wire_len, has_flag, flag_encrypt,
  set_flag,
}
use akari_proxy.Wire.Bodies.{decode-agg_plain}
use akari_proxy.Handler.State.{IncomingRequest, HttpResponse}
use akari_proxy.Handler.Respond.{v3_flags, v3_chunks, bodies, bodies_agg, agg_tag_of}
use akari_proxy.Handler.Respond.Shape.{v3_flags_fixed, v3_chunks_pos}
use akari_proxy.Handler.Headers.{Headers}
use akari_proxy.Client.Exchange.{ResponseOutcome, Event, connection_reset, received}

-- What the decoders make of a datagram that they refuse is an exception.
abbrev pub parsed : Datagram → Result Packet
parsed d = elim (decode d) [ none ↦ raise (value_error (codes "decode failed")) | some p ↦ ok p ]

-- A datagram comes at the time `now`.
abbrev pub coming : ℕ → Option Datagram → Event
coming now none = connection_reset
coming now (some d) = received (wire_len d) (parsed d) now

-- Datagram number `i` of the list comes at the time `now`.
abbrev pub arrival : List Datagram → ℕ × ℕ → Event
arrival datagrams (i, now) = coming now (get_elem? datagrams i)

-- `i` is among the numbers that are to come.
abbrev pub coming_later : ℕ → List (ℕ × ℕ) → Bool
coming_later i [] = false
coming_later i ((j, now) ∷ order) = i == j || coming_later i order

-- The outcome is the response, under these headers.
pub record Delivered (response : HttpResponse) (headers : Headers) (outcome : ResponseOutcome)
    : Type 0 where
  pub complete : outcome.complete ≡ true
  pub body : outcome.body ≡ some response.body
  pub status : outcome.status_code ≡ some response.status_code
  pub headers_read : outcome.headers ≡ some headers
  pub no_error : outcome.error ≡ none
  pub in_time : outcome.timed_out ≡ false

get_elem?-bodies_agg :
    (idx i : ℕ) (chunks : List Bytes) (total flags mid : ℕ) (psk tag chunk : Bytes)
    → get_elem? chunks i ≡ some chunk
    → get_elem? (bodies_agg idx chunks total flags mid psk tag) i
      ≡ some (
          resp_body_v3_agg chunk
            (i + idx)
            total
            flags
            mid
            psk
            (if suc i == length chunks then some tag else none))
unfolding bodies_agg
get_elem?-bodies_agg idx i [] total flags mid psk tag chunk e = cc
get_elem?-bodies_agg idx zero (c ∷ []) total flags mid psk tag chunk e = ground arith
get_elem?-bodies_agg idx zero (c ∷ d ∷ chunks) total flags mid psk tag chunk e = ground arith
get_elem?-bodies_agg idx (suc i) (c ∷ chunks) total flags mid psk tag chunk e =
    ground (arith, get_elem?-bodies_agg (suc idx) i chunks total flags mid psk tag chunk e)

module _ (hmac_sha256 : Bytes → Bytes → Bytes) (request : IncomingRequest) (response : HttpResponse)
    (plain : has_flag request.header.flags flag_encrypt ≡ false) where
  abbrev pub flags : ℕ
  flags = v3_flags request (length response.body)

  abbrev pub chunks : List Bytes
  chunks = v3_chunks request response.body

  abbrev pub tag : Bytes
  tag = agg_tag_of hmac_sha256 request.psk (concat chunks)

  abbrev pub body_tag : ℕ → Option Bytes
  body_tag i = if suc i == length chunks then some tag else none

  pub flags_plain : has_flag flags flag_encrypt ≡ false
  unfolding v3_flags has_flag set_flag
  flags_plain = ground (arith, plain)

  -- Body packet `i` as it goes out.
  abbrev pub body_datagram : ℕ → Bytes → Datagram
  body_datagram i chunk =
      resp_body_v3_agg chunk i (length chunks) flags request.header.message_id request.psk
        (body_tag i)

  pub get_elem?-bodies :
      (i : ℕ) (chunk : Bytes)
      → get_elem? chunks i ≡ some chunk
      → get_elem? (bodies hmac_sha256 request chunks (length chunks) flags) i
        ≡ some (body_datagram i chunk)
  unfolding bodies
  get_elem?-bodies i chunk e = ground (
    arith,
    (v3_flags_fixed request (length response.body)).1,
    get_elem?-bodies_agg 0 i chunks (length chunks) flags request.header.message_id request.psk tag
        chunk e,
  )

  abbrev pub wire_header : ℕ → Header
  wire_header seq_total = record {
    version = 3;
    flags = flags;
    message_id = request.header.message_id;
    seq_total = seq_total;
    timestamp = 0;
  }

  pub decode-body_datagram :
      (i : ℕ) (chunk : Bytes)
      → decode (body_datagram i chunk)
        ≡ some (record {
          header = wire_header (length chunks);
          payload = resp_body i (length chunks) chunk (body_tag i);
        })
  decode-body_datagram i chunk =
      let fixed = v3_flags_fixed request (length response.body) in
      decode-agg_plain chunk i (length chunks) flags request.header.message_id request.psk
        (body_tag i) fixed.1 flags_plain fixed.0 (v3_chunks_pos request response.body)
        (ground (arith, v3_chunks_pos request response.body))
