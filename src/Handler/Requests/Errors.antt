-- ===== src/Handler/Requests/Errors.antt =====
-- The error answers.
use akari_proxy.Prelude.{
  ℕ, ◌≤◌, ◌≡◌, refl, inl, inr, some, List, [], ◌∷◌, arith, leb, leb→le, Bool-cases, length, take,
  length-append, length-take, Text, nat_eq, text_key,
}
use akari_proxy.Prelude.Str.{codes}
use akari_proxy.Wire.{Datagram, Packet, error, error_v1, error_v2, error_v3, decode, has_flag}
use akari_proxy.Handler.State.{IncomingRequest}
use akari_proxy.Handler.Requests.{safe_message, encode_error}

-- One datagram, which the client reads as this error on this message.
pub record Reports (request : IncomingRequest) (code status : ℕ) (message : Text)
    (answer : List Datagram) : Type 0 where
  pub datagram : Datagram
  pub packet : Packet
  pub single : answer ≡ datagram ∷ []
  pub decodes : decode datagram ≡ some packet
  pub message_id : packet.header.message_id ≡ request.header.message_id
  pub payload : packet.payload ≡ error code status message

safe_message-length : (message : Text) → length (safe_message message) ≤ 200
unfolding safe_message
safe_message-length message = elim (Bool-cases (leb (length message) 200)) [
  | inl short ↦ rw short (leb→le _ _ short)
  | inr long ↦
      rw long
        (omega (arith, length-append (take 197 message) (codes "..."), length-take 197 message))
]

-- `_encode_error` makes one datagram, from which the client reads the code, the status and the
-- message, cut to 200 characters, under the request's message id; whatever the request's version.
pub encode_error-Reports :
    (request : IncomingRequest) (code status : ℕ) (message : Text)
    → Reports request code status (safe_message message) (encode_error request code status message)
      × (length (safe_message message) ≤ 200)
unfolding encode_error decode has_flag
encode_error-Reports request code status message = (
  elim (Bool-cases (leb 3 request.header.version)) [
    | inl v3 ↦ record {
      datagram =
          error_v3 (safe_message message) code status request.header.message_id 0 request.psk;
      packet = _;
      single = rw v3 refl;
      decodes = refl;
      message_id = refl;
      payload = refl;
    }
    | inr old ↦ elim (Bool-cases (leb 2 request.header.version)) [
      | inl v2 ↦ record {
        datagram =
            error_v2 code status (safe_message message) request.header.message_id
              request.header.timestamp request.psk;
        packet = _;
        single = rw (old, v2) refl;
        decodes = refl;
        message_id = refl;
        payload = refl;
      }
      | inr v1 ↦ record {
        datagram =
            error_v1 code status (safe_message message) request.header.message_id
              request.header.timestamp request.psk;
        packet = _;
        single = rw (old, v1) refl;
        decodes = refl;
        message_id = refl;
        payload = refl;
      }
    ]
  ],
  safe_message-length message,
)
