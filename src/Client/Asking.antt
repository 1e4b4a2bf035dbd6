-- ===== src/Client/Asking.antt =====
-- What the client does when nothing came in time (again the request, a NACK, the end), and what it
-- answers to a packet (an ACK, a NACK after the tail).
use akari_proxy.Prelude.{
  ℕ, ◌-◌, Bool, false, not, ◌&&◌, Option, none, some, List, [], ltb, leb, ◌==◌, if◌then◌else◌,
  is_some, or_else, is_empty, nat_eq, text_key,
}
use akari_proxy.Wire.{Datagram, ack_v2, nack_v2, nack_head_v3, nack_body_v3}
use akari_proxy.Client.Config.{ClientConfig}
use akari_proxy.Client.Accumulator.{ResponseAccumulator, header_complete, complete}
use akari_proxy.Client.Missing.{missing_of, first_missing_seq, build_missing_bitmap_from_list}
use akari_proxy.Client.Exchange.{
  Exchange, Request, Step, again, allow_nack, at_time, done, give_up, missing_seqs, send, send_ack,
  send_nack,
}

-- The request once more, while nothing has come: `none` where the code goes on to the next test.
unfoldable pub retry_request : Request → ℕ → Exchange → Option Exchange
unfolding send
retry_request request now st =
    if is_empty st.packets && ltb 0 st.req_retries_left
    then some (record (send request.datagram st) {
      req_retries_left = st.req_retries_left - 1;
      last_activity = now;
    })
    else none

-- The header chunks that are missing, where their number is known and not reached.
unfoldable pub missing_hdrs : ClientConfig → ResponseAccumulator → List ℕ
missing_hdrs config acc = elim acc.hdr_total [
  | none ↦ []
  | some total ↦
      if leb 3 config.version && not (header_complete acc)
      then missing_of total acc.hdr_chunks
      else []
]

unfoldable pub ask_headers : ClientConfig → Request → ℕ → Exchange → Option Exchange
unfolding allow_nack missing_hdrs send_nack
ask_headers config request now st =
    let missing = missing_hdrs config st.accumulator in
    if allow_nack config st && not (is_empty missing)
    then some (
        at_time now (
          send_nack
            (nack_head_v3 (build_missing_bitmap_from_list missing) request.message_id 0 config.psk)
            st))
    else none

unfoldable pub ask_body : ClientConfig → Request → ℕ → Exchange → Option Exchange
unfolding allow_nack send_nack
ask_body config request now st =
    let missing = missing_seqs st in
    let bitmap = build_missing_bitmap_from_list missing in
    if allow_nack config st
      && (is_some st.accumulator.seq_total
          && not (complete st.accumulator)
          && not (is_empty missing))
    then some (
        at_time now (
          send_nack
            (if leb 3 config.version
              then nack_body_v3 bitmap request.message_id 0 config.psk
              else nack_v2 bitmap request.message_id request.timestamp config.psk)
            st))
    else none

-- `self._timeout is not None and elapsed >= self._timeout`
unfoldable pub expired : ClientConfig → ℕ → Exchange → Bool
expired config now st = elim config.timeout [
  | none ↦ false
  | some t ↦ leb t (now - st.last_activity)
]

-- `continue` where there is a next state, else on to what follows.
abbrev pub or_again : Option Exchange → Step → Step
or_again (some st) rest = again st
or_again none rest = rest

unfoldable pub on_timeout : ClientConfig → Request → ℕ → Exchange → Step
unfolding retry_request ask_headers ask_body expired
on_timeout config request now st = or_again (retry_request request now st) (
    or_again (ask_headers config request now st) (
      or_again (ask_body config request now st)
        (if expired config now st then done (give_up config request st) else again st)))

-- A NACK after the tail chunk `seq` where chunks before it are missing.
unfoldable pub tail_nack : ClientConfig → ℕ → Datagram → Exchange → Exchange
unfolding allow_nack send_nack
tail_nack config seq d st =
    let total = or_else st.accumulator.seq_total 0 in
    if allow_nack config st && (ltb 0 total && seq == total - 1 && not (is_empty (missing_seqs st)))
    then send_nack d st
    else st

-- The ACK of a `resp` packet, which names the first chunk that is missing.
unfoldable pub first_ack : ClientConfig → Request → Exchange → Exchange
unfolding send_ack
first_ack config request st =
    if ltb st.acks_sent config.max_ack_rounds
      && (leb 2 config.version && is_some st.accumulator.seq_total && not (complete st.accumulator))
    then elim (first_missing_seq st.accumulator) [
      | none ↦ st
      | some first ↦ send_ack (ack_v2 first request.message_id request.timestamp config.psk) st
    ]
    else st
