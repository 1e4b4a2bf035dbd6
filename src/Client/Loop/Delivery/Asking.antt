-- ===== src/Client/Loop/Delivery/Asking.antt =====
-- What the loop does behind a body packet: it ends, or it asks for what is missing.
use akari_proxy.Prelude.{ℕ, ◌≡◌, refl, Bool, true, false, ◌&&◌, if◌then◌else◌, nat_eq, text_key}
use akari_proxy.Wire.{Datagram, nack_body_v3}
use akari_proxy.Client.Accumulator.{complete}
use akari_proxy.Client.Missing.{build_missing_bitmap_from_list}
use akari_proxy.Client.Exchange.{Exchange, again, done, send, send_nack, allow_nack, missing_seqs}
use akari_proxy.Client.Asking.{tail_nack}
use akari_proxy.Client.Loop.{finish, on_resp_body}
use akari_proxy.Client.Loop.Delivery.Gathering.{Scene}

module _ (scene : Scene) where
  abbrev pub body_nack : Exchange → Datagram
  body_nack st =
      nack_body_v3 (build_missing_bitmap_from_list (missing_seqs st)) scene.sent.message_id 0
        scene.config.psk

  pub on_resp_body_full :
      (seq : ℕ) (st : Exchange)
      → complete st.accumulator ≡ true
      → on_resp_body scene.hmac_sha256 scene.config scene.sent seq st
        ≡ done (finish scene.hmac_sha256 scene.config scene.sent st)
  unfolding on_resp_body
  on_resp_body_full seq st c = rw c refl

  pub on_resp_body_more :
      (seq : ℕ) (st : Exchange)
      → complete st.accumulator ≡ false
      → on_resp_body scene.hmac_sha256 scene.config scene.sent seq st
        ≡ again (tail_nack scene.config seq (body_nack st) st)
  unfolding on_resp_body
  on_resp_body_more seq st c = rw c refl

  pub tail_nack-chunks :
      (st : Exchange) (seq : ℕ) (d : Datagram)
      → (tail_nack scene.config seq d st).accumulator.chunks ≡ st.accumulator.chunks
  unfolding tail_nack send_nack send
  tail_nack-chunks st seq d = choose (allow_nack scene.config st && _) (send_nack d st) st refl
    where
      choose :
          (b : Bool) (s t : Exchange)
          → s.accumulator.chunks ≡ t.accumulator.chunks
          → (if b then s else t).accumulator.chunks ≡ t.accumulator.chunks
      choose true s t e = e
      choose false s t e = refl
