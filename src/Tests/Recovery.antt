-- ===== src/Tests/Recovery.antt =====
-- Resending at concrete inputs: py/akari/udp_client.py and py/akari/remote_proxy/handler.py.
use akari_proxy.Prelude.{
  none, ◌-◌, ◌≤◌, All, ◌≡◌, refl, sym, ap, false, some, List, [], ◌∷◌, map, arith, length,
  get_elem?, nat_eq, text_key,
}
use akari_proxy.Prelude.Dict.{get}
use akari_proxy.Wire.{Datagram, ack, response_first_chunk_v2, response_chunk_v2}
use akari_proxy.Handler.State.{IncomingRequest, State, Clock, remember}
use akari_proxy.Handler.Respond.{v3_flags, v3_chunks, bodies}
use akari_proxy.Handler.Respond.Shape.{v3_answer}
use akari_proxy.Handler.Nack.{handle_nack, handle_ack}
use akari_proxy.Client.Accumulator.{ResponseAccumulator, new_accumulator}
use akari_proxy.Client.Missing.{missing_seq_list, first_missing_seq, build_missing_bitmap_from_list}
use akari_proxy.Recovery.{nack_recovers}
use akari_proxy.Wire.{Packet, decode, nack_body_v3}
use akari_proxy.Server.{AkariUdpServer, request_of}
use akari_proxy.Recovery.Acks.{ack_recovers}
use akari_proxy.Tests.Fixtures.{hmac, request, page, block, three}

-- The client knows of three body packets and has none.
abbrev waiting : ResponseAccumulator
waiting = record (new_accumulator 7) { seq_total = some 3 }

abbrev clock : Clock
clock = record { at_start = 5; at_store = 6; at_encode = 7; at_cache = 8; at_purge = 9 }

abbrev empty : State
empty = record { resp_cache = []; http_cache = []; require_encryption = false }

abbrev server : AkariUdpServer
server = record { psk = 1 ∷ []; buffer_size = 65535; payload_max = none; plpmtud = false }

recovers_example :
    let chunks = v3_chunks request page.body in
    (packet : Packet) × (decode (
        nack_body_v3
          (build_missing_bitmap_from_list (missing_seq_list waiting))
          request.header.message_id
          0
          request.psk)
      ≡ some packet)
    × (map some (
          handle_nack
            (request_of server none packet)
            (remember request.header.message_id (v3_answer hmac request page block) clock empty))
        ≡ map
            (get_elem? (bodies hmac request chunks (length chunks) (v3_flags request 3)))
            (missing_seq_list waiting))
recovers_example =
    nack_recovers hmac request page block clock empty waiting server none (ap some (sym three))
      (omega (arith, three)) (omega arith)

-- A v2 answer of three datagrams, of which the client has the first.
abbrev old_request : IncomingRequest
old_request = record request {
  header = record { version = 2; flags = 0; message_id = 7; seq_total = 1; timestamp = 0 };
}

abbrev old_answer : List Datagram
old_answer =
    response_first_chunk_v2 200 3 [] (10 ∷ []) 7 3 0 0 (1 ∷ [])
    ∷ response_chunk_v2 (20 ∷ []) 7 1 3 0 0 (1 ∷ [])
    ∷ response_chunk_v2 (30 ∷ []) 7 2 3 0 0 (1 ∷ [])
    ∷ []

abbrev one_came : ResponseAccumulator
one_came = record (new_accumulator 7) { seq_total = some 3; chunks = (0, 10 ∷ []) ∷ [] }

one_lacks : first_missing_seq one_came ≡ some 1
unfolding first_missing_seq get
one_lacks = refl

ack_example :
    All
      (λ seq.
        (1 ≤ seq)
        × (get_elem?
              (handle_ack
                (record old_request { payload = ack 1 })
                (remember 7 old_answer clock empty))
              (seq - 1)
            ≡ get_elem? old_answer seq))
      (missing_seq_list one_came)
ack_example =
    ack_recovers old_request (record old_request { payload = ack 1 }) old_answer clock empty
      one_came 1 refl one_lacks refl refl (omega arith)
