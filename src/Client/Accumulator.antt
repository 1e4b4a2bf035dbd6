-- ===== src/Client/Accumulator.antt =====
-- `ResponseAccumulator` of udp_client.py.
pub mod Reassembly
pub mod Tag
use akari_proxy.Prelude.{
  ℕ, Bool, false, not, ◌||◌, Option, none, some, List, [], ◌∷◌, map, leb, ◌==◌, if◌then◌else◌,
  is_some, or_else, length, concat, Bytes, nat_eq, text_key,
}
use akari_proxy.Prelude.Dict.{Dict, get, put}
use akari_proxy.Prelude.Sorted.{sorted}
use akari_proxy.Exceptions.{Result, ok, ◌>>=◌}
use akari_proxy.Wire.{Header}
use akari_proxy.Handler.Headers.{Headers}
use akari_proxy.Client.Headers.{decode_header_block}

pub record ResponseAccumulator : Type 0 where
  pub message_id : ℕ
  pub chunks : Dict ℕ Bytes
  pub seq_total : Option ℕ
  pub status_code : Option ℕ
  pub body_len : Option ℕ
  pub headers_bytes : Option Bytes
  pub headers : Option Headers
  pub hdr_chunks : Dict ℕ Bytes
  pub hdr_total : Option ℕ
  pub agg_tag : Option Bytes

abbrev pub new_accumulator : ℕ → ResponseAccumulator
new_accumulator message_id = record {
  message_id = message_id;
  chunks = [];
  seq_total = none;
  status_code = none;
  body_len = none;
  headers_bytes = none;
  headers = none;
  hdr_chunks = [];
  hdr_total = none;
  agg_tag = none;
}

-- `if new is not None: old = new`
abbrev pub update_some {ℓ} : {A : Type ℓ} → Option A → Option A → Option A
update_some old none = old
update_some old (some a) = some a

-- The header block of the first chunk, taken once: `if hdr_bytes and self.headers_bytes is None`.
take_headers_v2 : Option Bytes → ResponseAccumulator → Result ResponseAccumulator
take_headers_v2 none acc = ok acc
take_headers_v2 (some []) acc = ok acc
take_headers_v2 (some (b ∷ bs)) acc = if is_some acc.headers_bytes then ok acc else (do
  headers ← decode_header_block (b ∷ bs)
  ok (record acc { headers_bytes = some (b ∷ bs); headers = some headers }))

-- The arguments are the packet's header and the fields of its payload.
unfoldable pub add_chunk_v2 :
    Header
    → ℕ
    → ℕ
    → Option ℕ
    → Option ℕ
    → Option Bytes
    → Bytes
    → ResponseAccumulator
    → Result ResponseAccumulator
unfolding take_headers_v2
add_chunk_v2 header seq seq_total status_code body_len hdr_bytes chunk acc =
    if not (header.message_id == acc.message_id)
    then ok acc
    else take_headers_v2 hdr_bytes (record acc {
      chunks = put acc.chunks seq chunk;
      seq_total = some seq_total;
      status_code = update_some acc.status_code status_code;
      body_len = update_some acc.body_len body_len;
    })

unfoldable pub add_head_v3 : ℕ → ℕ → ℕ → ℕ → ℕ → Bytes → ResponseAccumulator → ResponseAccumulator
add_head_v3 status_code body_len hdr_chunks hdr_idx seq_total_body headers acc = record acc {
  status_code = some status_code;
  body_len = some body_len;
  seq_total = some seq_total_body;
  hdr_total = some hdr_chunks;
  hdr_chunks = put acc.hdr_chunks hdr_idx headers;
}

unfoldable pub add_head_cont_v3 : ℕ → ℕ → Bytes → ResponseAccumulator → ResponseAccumulator
add_head_cont_v3 hdr_idx hdr_chunks headers acc = record acc {
  hdr_total = some hdr_chunks;
  hdr_chunks = put acc.hdr_chunks hdr_idx headers;
}

-- `payload.get("seq_total") or header.get("seq_total")`
unfoldable pub add_body_v3 :
    Header → ℕ → ℕ → Bytes → Option Bytes → ResponseAccumulator → ResponseAccumulator
add_body_v3 header seq seq_total chunk agg_tag acc = record acc {
  chunks = put acc.chunks seq chunk;
  seq_total = some (if seq_total == 0 then header.seq_total else seq_total);
  agg_tag = update_some acc.agg_tag agg_tag;
}

-- `len(got) >= total`, where the total is known
abbrev reached : Option ℕ → Dict ℕ Bytes → Bool
reached none got = false
reached (some total) got = leb total (length got)

unfoldable pub header_complete : ResponseAccumulator → Bool
header_complete acc = reached acc.hdr_total acc.hdr_chunks

unfoldable pub complete : ResponseAccumulator → Bool
complete acc = reached acc.seq_total acc.chunks

abbrev pub keys : Dict ℕ Bytes → List ℕ
keys [] = []
keys ((k, v) ∷ d) = k ∷ keys d

-- `b"".join(got[k] for k in sorted(got))`
unfoldable pub join_sorted : Dict ℕ Bytes → Bytes
join_sorted got = concat (map (λ k. or_else (get got k) []) (sorted (keys got)))

unfoldable pub assemble_headers : ResponseAccumulator → Result ResponseAccumulator
assemble_headers acc =
    if is_some acc.headers_bytes || not (header_complete acc) then ok acc else (do
      let block = join_sorted acc.hdr_chunks
      headers ← decode_header_block block
      ok (record acc { headers_bytes = some block; headers = some headers }))

unfoldable pub assembled_body : ResponseAccumulator → Bytes
assembled_body acc = join_sorted acc.chunks
