-- ===== src/Client/Loop.antt =====
-- `AkariUdpClient.send_request`: what the loop does with a packet, and the loop. An `Event` is how one
-- `recvfrom` ends.
pub mod Budget
pub mod Silence
pub mod Arrivals
pub mod Delivery
pub mod Authentic
use akari_proxy.Prelude.{
  ℕ, ◌+◌, ◌-◌, false, ◌&&◌, ◌||◌, Option, none, some, List, [], ◌∷◌, ◌++◌, leb, if◌then◌else◌, take,
  Bytes, text_eq, nat_eq, text_key,
}
use akari_proxy.Prelude.Str.{codes}
use akari_proxy.Exceptions.{Result, ok, ◌>>=◌}
use akari_proxy.Wire.{
  Packet, Header, Payload, resp, resp_head, resp_head_cont, resp_body, error, nack_v2, nack_body_v3,
  has_flag, flag_agg_tag,
}
use akari_proxy.Client.Config.{ClientConfig}
use akari_proxy.Client.Accumulator.{
  ResponseAccumulator, add_chunk_v2, add_head_v3, add_head_cont_v3, add_body_v3, header_complete,
  complete, assemble_headers, assembled_body,
}
use akari_proxy.Client.Missing.{build_missing_bitmap_from_list}
use akari_proxy.Client.Exchange.{
  ErrorPayload, Event, Exchange, Request, ResponseOutcome, Step, again, client_error,
  connection_reset, done, missing_seqs, received, server_error, socket_timeout,
}
use akari_proxy.Client.Asking.{first_ack, on_timeout, tail_nack}

-- `if accumulator.header_complete: accumulator.assemble_headers()`
unfoldable pub on_head : Exchange → Result Step
on_head st =
    if header_complete st.accumulator
    then (do acc ← assemble_headers st.accumulator; ok (again (record st { accumulator = acc })))
    else ok (again st)

abbrev pub with_accumulator : ResponseAccumulator → Exchange → Exchange
with_accumulator acc st = record st { accumulator = acc }

-- The state with a packet taken in, before its payload is looked at.
unfoldable pub take_in : ClientConfig → ℕ → Packet → ℕ → Exchange → Exchange
take_in config size packet now st = record st {
  bytes_received = st.bytes_received + size;
  packets = st.packets ++ (packet ∷ []);
  last_activity = now;
  agg_mode = st.agg_mode || (has_flag packet.header.flags flag_agg_tag && leb 3 config.version);
}

-- The next iteration, unless the loop has ended.
abbrev pub onward : (Exchange → Result Step) → Step → Result Step
onward next (done outcome) = ok (done outcome)
onward next (again st) = next st

module _ (hmac_sha256 : Bytes → Bytes → Bytes) where
  -- The error of the outcome, after the check of the aggregate tag.
  unfoldable pub tag_error : ClientConfig → Exchange → Option ErrorPayload
  tag_error config st =
      let acc = st.accumulator in
      if st.agg_mode && complete acc
      then elim acc.agg_tag [
        | none ↦ some (client_error (codes "aggregate tag missing"))
        | some tag ↦
            if text_eq (take 16 (hmac_sha256 config.psk (assembled_body acc))) tag
            then st.error_payload
            else some (client_error (codes "aggregate tag mismatch"))
      ]
      else st.error_payload

  -- What comes behind the loop.
  unfoldable pub finish : ClientConfig → Request → Exchange → ResponseOutcome
  unfolding tag_error
  finish config request st =
      let acc = st.accumulator in
      record {
        message_id = request.message_id;
        packets = st.packets;
        body = if complete acc then some (assembled_body acc) else none;
        status_code = acc.status_code;
        headers = acc.headers;
        error = tag_error config st;
        complete = complete acc;
        timed_out = false;
        bytes_sent = st.bytes_sent;
        bytes_received = st.bytes_received;
        nacks_sent = st.nacks_sent;
        request_retries = config.initial_request_retries - st.req_retries_left;
      }

  unfoldable pub on_resp : ClientConfig → Request → ℕ → Exchange → Step
  unfolding first_ack tail_nack finish
  on_resp config request seq st =
      let st' = first_ack config request st in
      if complete st'.accumulator
      then done (finish config request st')
      else again (
          if leb 2 config.version
          then tail_nack config seq
              (nack_v2 (build_missing_bitmap_from_list (missing_seqs st')) request.message_id
                request.timestamp config.psk)
              st'
          else st')

  unfoldable pub on_resp_body : ClientConfig → Request → ℕ → Exchange → Step
  unfolding tail_nack finish
  on_resp_body config request seq st =
      if complete st.accumulator
      then done (finish config request st)
      else again (
          tail_nack config seq
            (nack_body_v3 (build_missing_bitmap_from_list (missing_seqs st)) request.message_id 0
              config.psk)
            st)

  -- The chain of tests on the packet's type.
  unfoldable pub on_payload : ClientConfig → Request → Header → Payload → Exchange → Result Step
  unfolding on_resp on_resp_body on_head
  on_payload config request header (resp seq total status len hdr chunk) st = do
    acc ← add_chunk_v2 header seq total status len hdr chunk st.accumulator
    ok (on_resp config request seq (with_accumulator acc st))
  on_payload config request header (resp_head status len chunks idx total hdr) st =
      on_head (with_accumulator (add_head_v3 status len chunks idx total hdr st.accumulator) st)
  on_payload config request header (resp_head_cont idx chunks hdr) st =
      on_head (with_accumulator (add_head_cont_v3 idx chunks hdr st.accumulator) st)
  on_payload config request header (resp_body seq total chunk tag) st = ok (
      on_resp_body config request seq
        (with_accumulator (add_body_v3 header seq total chunk tag st.accumulator) st))
  on_payload config request header (error code status message) st = ok (
      done (
        finish config request
          (record st { error_payload = some (server_error code status message) })))
  on_payload config request header other st = ok (again st)

  unfoldable pub step : ClientConfig → Request → Event → Exchange → Result Step
  unfolding on_timeout take_in on_payload
  step config request connection_reset st = ok (again st)
  step config request (socket_timeout now) st = ok (on_timeout config request now st)
  step config request (received size packet now) st = do
    p ← packet
    on_payload config request p.header p.payload (take_in config size p now st)

  -- The loop on the events that come; `again` where they run out before it ends.
  unfoldable pub run : ClientConfig → Request → List Event → Exchange → Result Step
  unfolding step
  run config request [] st = ok (again st)
  run config request (event ∷ events) st =
      step config request event st >>= onward (run config request events)
