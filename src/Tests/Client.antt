-- ===== src/Tests/Client.antt =====
-- The client's theorems at concrete inputs: py/akari/udp_client.py.
use akari_proxy.Prelude.{
  ℕ, zero, suc, ◌<◌, ◌≡◌, refl, inl, true, false, none, some, List, [], ◌∷◌, map, arith, take,
  Bytes, text_eq, nat_eq, text_key,
}
use akari_proxy.Prelude.Dict.{get, put}
use akari_proxy.Prelude.Str.{codes, lower}
use akari_proxy.Exceptions.{ok, ◌>>=◌}
use akari_proxy.Utf8
use akari_proxy.Utf8.{IsScalar, decode-encode}
use akari_proxy.Wire.{Packet, resp_head, resp_body, wire_len, has_flag, flag_encrypt}
use akari_proxy.Handler.Headers.{encode_header_block}
use akari_proxy.Handler.Nack.{bitmap_to_seq}
use akari_proxy.Client.Headers.{decode_header_block}
use akari_proxy.Client.Headers.RoundTrip.{collect, decode_header_block-encode_header_block}
use akari_proxy.Client.Accumulator.{
  add_head_v3, add_body_v3, header_complete, complete, assemble_headers, assembled_body,
  join_sorted,
}
use akari_proxy.Prelude.Sorted.{sorted}
use akari_proxy.Client.Missing.{build_missing_bitmap_from_list}
use akari_proxy.Client.Missing.Bitmap.{bitmap_to_seq-build_missing_bitmap}
use akari_proxy.Client.Exchange.{ResponseOutcome, socket_timeout, received, done, start}
use akari_proxy.Client.Loop.{
  step, run, take_in, on_payload, on_head, on_resp_body, finish, tag_error,
}
use akari_proxy.Client.Loop.Authentic.Origins.{tag_came}
use akari_proxy.Client.Loop.Authentic.{run_authenticates}
use akari_proxy.Client.Loop.Silence.{Spaced}
use akari_proxy.Prelude.{ℕ}
use akari_proxy.Client.Loop.Silence.{run_gives_up}
use akari_proxy.Client.Loop.Arrivals.{Delivered, arrival, coming_later}
use akari_proxy.Client.Loop.Delivery.{run_delivers}
use akari_proxy.Tests.Fixtures.{hmac, request, page, config, sent, block, block_headers, three}
use akari_proxy.Handler.Respond.Shape.{v3_answer}

plain : has_flag request.header.flags flag_encrypt ≡ false
unfolding has_flag
plain = refl

block_read : decode_header_block block ≡ ok block_headers
unfolding decode_header_block put get Utf8.decode
block_read = refl

-- The third body packet first, then the head once more, the second, the first twice.
abbrev order : List (ℕ × ℕ)
order = (3, 2) ∷ (0, 3) ∷ (2, 4) ∷ (1, 5) ∷ (1, 6) ∷ []

covered : (i : ℕ) → i < 3 → coming_later (suc i) order ≡ true
covered zero h = refl
covered (suc zero) h = refl
covered (suc (suc zero)) h = refl
covered (suc (suc (suc i))) h = absurd (omega arith)

run_delivers_example :
    (outcome : ResponseOutcome) × (run hmac config sent
        (map (arrival (v3_answer hmac request page block)) ((0, 1) ∷ order))
        (start config sent 0)
      ≡ ok (done outcome))
    × Delivered page block_headers outcome
run_delivers_example =
    run_delivers hmac request page plain block block_headers block_read config sent refl refl 0 1
      order
      (
        omega (arith, three),
        (omega arith, (omega (arith, three), (omega (arith, three), (omega (arith, three), tt)))),
      )
      (λ i h. covered i (omega (arith, three)))

-- The time-outs of the socket come twice as often as the timeout of 10.
abbrev silent : List ℕ
silent = 5 ∷ 10 ∷ 15 ∷ 20 ∷ 25 ∷ 30 ∷ 35 ∷ 40 ∷ []

spaced : Spaced 5 0 silent
spaced = (
  omega arith,
  (
    omega arith,
    (omega arith, (omega arith, (omega arith, (omega arith, (omega arith, (omega arith, tt)))))),
  ),
)

gives_up_example :
    (outcome : ResponseOutcome) × (run hmac config sent
        (map socket_timeout silent)
        (start config sent 0)
      ≡ ok (done outcome))
    × (outcome.timed_out ≡ true)
gives_up_example =
    run_gives_up config sent 10 2 refl refl hmac 5 1 (omega arith) 0 silent spaced (omega arith)

-- A head packet and the only body packet, which carries the tag of its body.
abbrev head_came : Packet
head_came = record {
  header = record { version = 3; flags = 0x50; message_id = 7; seq_total = 1; timestamp = 0 };
  payload = resp_head 200 1 1 0 1 block;
}

abbrev body_came : Packet
body_came = record {
  header = record { version = 3; flags = 0x50; message_id = 7; seq_total = 1; timestamp = 0 };
  payload = resp_body 0 1 (10 ∷ []) (some (1 ∷ 10 ∷ []));
}

abbrev fetched : ResponseOutcome
fetched = record {
  message_id = 7;
  packets = head_came ∷ body_came ∷ [];
  body = some (10 ∷ []);
  status_code = some 200;
  headers = some block_headers;
  error = none;
  complete = true;
  timed_out = false;
  bytes_sent = wire_len sent.datagram;
  bytes_received = 90;
  nacks_sent = 0;
  request_retries = 0;
}

authenticates_example :
    (body : Bytes) × (fetched.body ≡ some body)
    × (tag_came (take 16 (hmac config.psk body)) fetched.packets ≡ true)
unfolding run step start take_in on_payload on_head on_resp_body finish tag_error add_head_v3
    add_body_v3 header_complete complete assemble_headers assembled_body join_sorted sorted
    decode_header_block put get Utf8.decode has_flag text_eq
authenticates_example =
    run_authenticates hmac config sent 0
      (received 43 (ok head_came) 1 ∷ received 47 (ok body_came) 2 ∷ []) fetched refl refl refl refl
      refl

bitmap_example : bitmap_to_seq (build_missing_bitmap_from_list (1 ∷ 9 ∷ [])) ≡ 1 ∷ 9 ∷ []
bitmap_example = bitmap_to_seq-build_missing_bitmap (1 ∷ 9 ∷ []) (omega arith, (omega arith, tt))

header_block_example :
    (encode_header_block ((codes "A", codes "b") ∷ []) >>= decode_header_block)
    ≡ ok (collect [] ((codes "A", codes "b") ∷ []))
unfolding lower
header_block_example =
    decode_header_block-encode_header_block ((codes "A", codes "b") ∷ [])
      (((inl (omega arith), tt), (inl (omega arith), tt)), tt)

utf8_example : Utf8.decode (Utf8.encode (0x3042 ∷ [])) ≡ 0x3042 ∷ []
utf8_example = decode-encode (0x3042 ∷ []) (inl (omega arith), tt)
