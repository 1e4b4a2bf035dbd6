-- ===== src/Handler/Respond.antt =====
-- `_encode_success_datagrams` and `_encode_success_datagrams_v3`: the datagrams of a response.
pub mod Shape
pub mod Fit
pub mod Encrypted
pub mod Legacy
use akari_proxy.Prelude.{
  Bool, ◌&&◌, ℕ, zero, suc, ◌+◌, ◌-◌, ◌/◌, max, true, false, Option, none, some, List, [], ◌∷◌,
  ◌++◌, leb, if◌then◌else◌, length, is_empty, take, concat, Text, Bytes,
}
use akari_proxy.Prelude.Str.{codes}
use akari_proxy.Prelude.Decimal.{decimal}
use akari_proxy.Exceptions.{
  out_of_range, payload_size, Exn, Result, ok, raise, body_too_large_error, ◌>>=◌, raise_unless,
}
use akari_proxy.Wire.{
  Datagram, response_first_chunk, response_chunk, response_first_chunk_v2, response_chunk_v2,
  resp_head_v3, resp_head_cont_v3, resp_body_v3, resp_body_v3_agg, has_flag, set_flag, flag_encrypt,
  flag_has_header, flag_agg_tag, flag_short_len,
}
use akari_proxy.Handler.Sizes.{payload_cap, response_first_overhead}
use akari_proxy.Handler.Split.{slices, split_body}
use akari_proxy.Handler.Headers.{shrink_headers, encode_header_block_limited}
use akari_proxy.Handler.State.{IncomingRequest, HttpResponse, State, Clock, second, remember}

-- `x or 'default'` in a message
or_default : Option ℕ → Text
or_default none = codes "default"
or_default (some zero) = codes "default"
or_default (some (suc n)) = decimal (suc n)

-- `BodyTooLargeError(f"… {limits}")`, whose message is built around its argument.
unfoldable pub too_large : Text → ℕ → Text → IncomingRequest → Exn
unfolding or_default
too_large what count bound request = body_too_large_error (
    codes "レスポンスボディが"
    ++ codes "response "
    ++ what
    ++ codes " "
    ++ decimal count
    ++ codes " chunks (>"
    ++ bound
    ++ codes "). "
    ++ codes "payload_max="
    ++ or_default request.payload_max
    ++ codes ", buffer_size="
    ++ or_default request.buffer_size
    ++ codes "バイトの上限を超えました")

-- The flags of a v3 response.
unfoldable pub v3_flags : IncomingRequest → ℕ → ℕ
v3_flags request body_len =
    let encrypted =
      if has_flag request.header.flags flag_encrypt
      then set_flag flag_agg_tag flag_encrypt
      else flag_agg_tag in
    if leb body_len 0xff_ffff then set_flag encrypted flag_short_len else encrypted

-- `for idx, hdr_chunk in enumerate(hdr_chunks_list[1:], start=1)`
head_conts : ℕ → List Bytes → ℕ → ℕ → ℕ → Bytes → List Datagram
head_conts idx [] count flags message_id psk = []
head_conts idx (chunk ∷ chunks) count flags message_id psk =
    resp_head_cont_v3 chunk idx count flags message_id psk
    ∷ head_conts (suc idx) chunks count flags message_id psk

-- `for idx, chunk in enumerate(body_chunks)` under the aggregate tag, which the last chunk carries.
unfoldable pub bodies_agg : ℕ → List Bytes → ℕ → ℕ → ℕ → Bytes → Bytes → List Datagram
bodies_agg idx [] total flags message_id psk agg_tag = []
bodies_agg idx (chunk ∷ chunks) total flags message_id psk agg_tag =
    resp_body_v3_agg chunk idx total flags message_id psk
      (if is_empty chunks then some agg_tag else none)
    ∷ bodies_agg (suc idx) chunks total flags message_id psk agg_tag

bodies_plain : ℕ → List Bytes → ℕ → ℕ → ℕ → Bytes → List Datagram
bodies_plain idx [] total flags message_id psk = []
bodies_plain idx (chunk ∷ chunks) total flags message_id psk =
    resp_body_v3 chunk idx total flags message_id psk
    ∷ bodies_plain (suc idx) chunks total flags message_id psk

-- `[…] or [b""]`
header_chunks : ℕ → Bytes → List Bytes
header_chunks cap [] = [] ∷ []
header_chunks cap (b ∷ bs) = slices cap (b ∷ bs)

-- The head packet on the first header chunk, and the continuations on the others.
heads : List Bytes → ℕ → ℕ → ℕ → ℕ → ℕ → ℕ → Bytes → List Datagram
unfolding head_conts
heads [] status body_len count total flags message_id psk = []
heads (chunk ∷ chunks) status body_len count total flags message_id psk =
    resp_head_v3 status chunk body_len count 0 total flags message_id psk
    ∷ head_conts 1 chunks count flags message_id psk

-- The body chunks of a v3 response.
unfoldable pub v3_chunks : IncomingRequest → Bytes → List Bytes
v3_chunks request body =
    let flags = v3_flags request (length body) in
    let (first, tail) =
      split_body body request.buffer_size 0 request.payload_max 3 flags
        (has_flag flags flag_agg_tag) in
    first ∷ tail

-- `for index, chunk in enumerate(tail_chunks, start=1)`, for v2 and v1
unfoldable pub tails_v2 : ℕ → List Bytes → ℕ → ℕ → ℕ → ℕ → Bytes → List Datagram
tails_v2 index [] message_id total flags timestamp psk = []
tails_v2 index (chunk ∷ chunks) message_id total flags timestamp psk =
    response_chunk_v2 chunk message_id index total flags timestamp psk
    ∷ tails_v2 (suc index) chunks message_id total flags timestamp psk

unfoldable pub tails_v1 : ℕ → List Bytes → ℕ → ℕ → ℕ → Bytes → List Datagram
tails_v1 index [] message_id total timestamp psk = []
tails_v1 index (chunk ∷ chunks) message_id total timestamp psk =
    response_chunk chunk message_id index total timestamp psk
    ∷ tails_v1 (suc index) chunks message_id total timestamp psk

-- The payloads of the native encoders are checked one after another.
abbrev pub payload_sizes : List Bytes → Result Bool
payload_sizes [] = ok true
payload_sizes (chunk ∷ chunks) = payload_size (length chunk) >>= λ _. payload_sizes chunks

-- The answers in the formats before v3. The status and the number of chunks have 16 bits and the length
-- of the body 32; the native module raises for others, and for a payload of more than 65535 bytes.
unfoldable pub legacy_datagrams :
    IncomingRequest → HttpResponse → Bytes → ℕ → Result (List Datagram)
legacy_datagrams request response header_block timestamp = do
  let version = request.header.version
  let mid = request.header.message_id
  let body_len = length response.body
  let (first_chunk, tail_chunks) =
      split_body response.body request.buffer_size (length header_block) request.payload_max version
        0 false
  let seq_total = max 1 (1 + length tail_chunks)
  let has_header = if is_empty header_block then 0 else flag_has_header
  let flags =
      if has_flag request.header.flags flag_encrypt
      then set_flag has_header flag_encrypt
      else has_header
  let block_len = if leb 2 version then length header_block else 0
  _ ←
      raise_unless out_of_range
        (leb response.status_code 0xffff && (leb body_len 0xffff_ffff && leb seq_total 0xffff))
  _ ← payload_size (response_first_overhead + (block_len + length first_chunk))
  _ ← payload_sizes tail_chunks
  ok (
      if leb 2 version
      then response_first_chunk_v2 response.status_code body_len header_block first_chunk mid
          seq_total flags timestamp request.psk
        ∷ tails_v2 1 tail_chunks mid seq_total flags timestamp request.psk
      else response_first_chunk response.status_code body_len first_chunk mid seq_total timestamp
          request.psk
        ∷ tails_v1 1 tail_chunks mid seq_total timestamp request.psk)

-- The limit on the header block.
unfoldable pub header_cap : IncomingRequest → ℕ
header_cap request =
    let base_cap =
      payload_cap request.buffer_size request.payload_max request.header.version 0 true in
    max (base_cap - response_first_overhead - 64) 1

abbrev pub keep_answer :
    IncomingRequest → Clock → State → Result (List Datagram) → Result (List Datagram) × State
keep_answer request clock s (ok datagrams) =
    (ok datagrams, remember request.header.message_id datagrams clock s)
keep_answer request clock s (raise e) = (raise e, s)

module _ (hmac_sha256 : Bytes → Bytes → Bytes) where
  -- The first 16 bytes of the HMAC of the whole body.
  unfoldable pub agg_tag_of : Bytes → Bytes → Bytes
  agg_tag_of psk body = take 16 (hmac_sha256 psk body)

  unfoldable pub bodies : IncomingRequest → List Bytes → ℕ → ℕ → List Datagram
  unfolding bodies_plain agg_tag_of
  bodies request chunks total flags =
      if has_flag flags flag_agg_tag
      then bodies_agg 0 chunks total flags request.header.message_id request.psk
          (agg_tag_of request.psk (concat chunks))
      else bodies_plain 0 chunks total flags request.header.message_id request.psk

  -- The datagrams of a v3 response and the number of its body packets.
  unfoldable pub encode_success_datagrams_v3 :
      IncomingRequest → HttpResponse → Bytes → Result (List Datagram × ℕ)
  unfolding too_large header_chunks heads
  encode_success_datagrams_v3 request response header_block = do
    let body_len = length response.body
    let flags = v3_flags request body_len
    let body_chunks = v3_chunks request response.body
    let seq_total = max 1 (length body_chunks)
    _ ←
        raise_unless (too_large (codes "body requires") seq_total (codes "65535") request)
          (leb seq_total 0xffff)
    let base_cap = payload_cap request.buffer_size request.payload_max 3 flags true
    let cap_header = max (base_cap - 8) 1
    let hdr_chunks_list = header_chunks cap_header header_block
    let count = length hdr_chunks_list
    _ ←
        raise_unless (too_large (codes "headers require") count (codes "255") request)
          (leb count 0xff)
    ok (
      heads hdr_chunks_list response.status_code body_len count seq_total flags
            request.header.message_id request.psk
          ++ bodies request body_chunks seq_total flags,
      seq_total,
    )

  unfoldable pub success_datagrams : IncomingRequest → HttpResponse → ℕ → Result (List Datagram)
  success_datagrams request response timestamp = do
    (header_block, _) ←
        encode_header_block_limited (shrink_headers 256 response.headers) (header_cap request)
    if leb 3 request.header.version
        then (do
          (datagrams, _) ← encode_success_datagrams_v3 request response header_block
          ok datagrams)
        else legacy_datagrams request response header_block timestamp

  -- The answer is kept for resending. (For v3 the inner function keeps it too, which changes nothing.)
  unfoldable pub encode_success_datagrams :
      IncomingRequest → HttpResponse → Clock → State → Result (List Datagram) × State
  encode_success_datagrams request response clock s =
      keep_answer request clock s (success_datagrams request response (clock.at_encode / second))
