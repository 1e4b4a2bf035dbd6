-- ===== src/Tests/Fixtures.antt =====
-- A request, a page and a client that the tests of the client share.
use akari_proxy.Prelude.{
  ◌≡◌, refl, false, none, some, [], ◌∷◌, ◌++◌, length, Bytes, nat_eq, text_key,
}
use akari_proxy.Prelude.Str.{codes}
use akari_proxy.Wire.{req, request_v3, has_flag, set_flag}
use akari_proxy.Handler.Sizes.{payload_cap, calc_payload_caps, max_datagram_size}
use akari_proxy.Handler.Split.{slices, split_body, split_caps}
use akari_proxy.Handler.Headers.{Headers}
use akari_proxy.Handler.State.{IncomingRequest, HttpResponse}
use akari_proxy.Handler.Respond.{v3_flags, v3_chunks}
use akari_proxy.Client.Config.{ClientConfig}
use akari_proxy.Client.Exchange.{Request}

abbrev pub hmac : Bytes → Bytes → Bytes
hmac key message = key ++ message

abbrev pub request : IncomingRequest
request = record {
  header = record { version = 3; flags = 0; message_id = 7; seq_total = 1; timestamp = 0 };
  payload = req (codes "http://a.b/");
  psk = 1 ∷ [];
  buffer_size = none;
  payload_max = some 133;
}

abbrev pub page : HttpResponse
page = record { status_code = 200; headers = []; body = 10 ∷ 20 ∷ 30 ∷ [] }

abbrev pub config : ClientConfig
config = record {
  psk = 1 ∷ [];
  timeout = some 10;
  buffer_size = 65535;
  version = 3;
  max_nack_rounds = some 2;
  max_ack_rounds = 0;
  use_encryption = false;
  initial_request_retries = 1;
  dyn_payload_max = none;
  short_id = false;
}

abbrev pub sent : Request
sent = record {
  datagram = request_v3 (codes "get") (codes "http://a.b/") [] 7 0 0 (1 ∷ []);
  message_id = 7;
  timestamp = 0;
}

-- An `etag` header of the value "x".
abbrev pub block : Bytes
block = 4 ∷ 0 ∷ 1 ∷ 120 ∷ []

abbrev pub block_headers : Headers
block_headers = (codes "etag", codes "x") ∷ []

pub three : length (v3_chunks request page.body) ≡ 3
unfolding v3_chunks split_body split_caps slices calc_payload_caps payload_cap max_datagram_size
    v3_flags has_flag set_flag
three = refl
