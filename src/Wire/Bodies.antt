-- ===== src/Wire/Bodies.antt =====
-- What the decoder makes of the body packets under the aggregate tag.
use akari_proxy.Prelude.{
  ℕ, ◌-◌, ◌<◌, ◌≡◌, refl, ap, Bool, true, false, Option, none, some, ◌==◌, lt→ltb, is_some, Bytes,
  nat_eq, text_key,
}
use akari_proxy.Wire.{
  Packet, resp_body, resp_body_v3_agg, decode, has_flag, flag_agg_tag, flag_encrypt, flag_short_id,
  decode_body, split_tag,
}

split_tag_given :
    (chunk : Bytes) (tag : Option Bytes) (last : Bool)
    → is_some tag ≡ last
    → split_tag last chunk tag ≡ (chunk, tag)
unfolding split_tag
split_tag_given chunk none false t = refl
split_tag_given chunk none true t = cc
split_tag_given chunk (some x) true t = refl
split_tag_given chunk (some x) false t = cc

module _ (chunk : Bytes) (seq total flags mid : ℕ) (psk : Bytes) (tag : Option Bytes)
    (agg : has_flag flags flag_agg_tag ≡ true) where
  -- Encrypted ones are refused.
  pub decode-agg_encrypted :
      has_flag flags flag_encrypt ≡ true
      → decode (resp_body_v3_agg chunk seq total flags mid psk tag) ≡ none
  unfolding decode decode_body
  decode-agg_encrypted e = rw (agg, e) refl

  -- Plain ones come through with their tag, which only the last one has.
  pub decode-agg_plain :
      has_flag flags flag_encrypt ≡ false
      → has_flag flags flag_short_id ≡ false
      → 0 < total
      → is_some tag ≡ (seq == total - 1)
      → decode (resp_body_v3_agg chunk seq total flags mid psk tag)
        ≡ some (record {
          header = record {
            version = 3;
            flags = flags;
            message_id = mid;
            seq_total = total;
            timestamp = 0;
          };
          payload = resp_body seq total chunk tag;
        })
  unfolding decode decode_body
  decode-agg_plain e s l t =
      rw (agg, e, s, lt→ltb 0 total l) (ap body_of (split_tag_given chunk tag (seq == total - 1) t))
    where
      body_of : Bytes × Option Bytes → Option Packet
      body_of (c, x) = some (record {
        header = record {
          version = 3;
          flags = flags;
          message_id = mid;
          seq_total = total;
          timestamp = 0;
        };
        payload = resp_body seq total c x;
      })
