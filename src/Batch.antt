-- ===== src/Batch.antt =====
-- read.go: how pending tags are packed into multi-service requests that fit the connection.
pub mod Steps
pub mod Fits
pub mod Drain
mod Tests
use gologix.Base.{
  ℕ, zero, suc, ◌+◌, ◌-◌, ◌*◌, ◌%◌, List, [], ◌∷◌, ◌++◌, Bool, true, false, length, get_elem?, ltb,
  leb, ◌||◌, ◌==◌, if◌then◌else◌, Option, none, some,
}
use gologix.Base.Result.{Result, ok, err, panic, ◌>>=◌}
use gologix.Types.{size, cip_type_struct}

-- tagDesc, with what packedStructSize finds for its Go value, and the length of its IOI's buffer. A
-- count of elements below 1 is 0 here: the code treats them alike.
pub record TagDesc : Type 0 where
  pub tag_type : ℕ
  pub elements : ℕ
  pub struct_size : Option ℕ
  pub ioi_length : ℕ

abbrev pub conn_size_large_default : ℕ
conn_size_large_default = 4000

-- CSD header 6, item count 2, connection address item 4 + 4, data item header 4, service header 10.
abbrev pub estimate_multi_read_request_overhead : ℕ → ℕ
estimate_multi_read_request_overhead service_count = 6 + 2 + 4 + 4 + 4 + 10 + 2 * service_count

-- The same with the result header, 8.
abbrev pub estimate_multi_read_reply_overhead : ℕ → ℕ
estimate_multi_read_reply_overhead reply_count = 6 + 2 + 4 + 4 + 4 + 8 + 2 * reply_count

-- A size that is not positive, or an error, is replaced by that of the type.
unfoldable pub struct_bytes : TagDesc → ℕ
struct_bytes tag = elim tag.struct_size [
  | none ↦ size tag.tag_type
  | some zero ↦ size tag.tag_type
  | some (suc n) ↦ suc n
]

abbrev pub round_up : ℕ → ℕ
round_up n = if n % 8 == 0 then n else n + (8 - n % 8)

unfoldable pub estimate_tag_response_size : TagDesc → ℕ
unfolding struct_bytes
estimate_tag_response_size tag =
    let elements = if ltb tag.elements 1 then 1 else tag.elements in
    if tag.tag_type == cip_type_struct
    then 6 + 2 + round_up (struct_bytes tag) * elements
    else 6 + size tag.tag_type * elements

-- readServiceForTag, given the client's connection size: whether the service is FragRead.
unfoldable pub is_frag_read : ℕ → TagDesc → Bool
is_frag_read connection_size tag =
    let conn_size = if ltb 0 connection_size then connection_size else conn_size_large_default in
    (tag.tag_type == cip_type_struct)
    || (ltb 1 tag.elements
        || leb conn_size (estimate_multi_read_reply_overhead 1 + estimate_tag_response_size tag))

-- A tag's bytes in the request: the header, the IOI and the footer.
unfoldable pub packed_size : ℕ → TagDesc → ℕ
packed_size connection_size tag =
    2 + tag.ioi_length + (if is_frag_read connection_size tag then 6 else 2)

-- Whether one more tag would reach the connection size, in the request or in the reply.
unfoldable pub too_big : ℕ → TagDesc → ℕ → ℕ → ℕ → Bool
too_big connection_size tag count packed_bytes response_size =
    leb connection_size (
      estimate_multi_read_request_overhead (suc count)
      + packed_bytes
      + packed_size connection_size tag)
    || leb connection_size (
        estimate_multi_read_reply_overhead (suc count)
        + response_size
        + estimate_tag_response_size tag)

-- The loop of selectPackedTagIndexes from index `i` on. A tag that is too big is passed over.
unfoldable pub select_from : ℕ → ℕ → ℕ → ℕ → ℕ → List TagDesc → List ℕ
select_from connection_size i count packed_bytes response_size [] = []
select_from connection_size i count packed_bytes response_size (tag ∷ tags) =
    elim (too_big connection_size tag count packed_bytes response_size) [
      | true ↦ select_from connection_size (suc i) count packed_bytes response_size tags
      | false ↦
          i
          ∷ select_from connection_size (suc i) (suc count)
              (packed_bytes + packed_size connection_size tag)
              (response_size + estimate_tag_response_size tag) tags
    ]

-- With nothing selected, the first tag goes alone.
pub first_if_empty : List ℕ → List ℕ
first_if_empty [] = 0 ∷ []
first_if_empty (i ∷ is) = i ∷ is

-- selectPackedTagIndexes, where the IOIs are there.
unfoldable pub select_packed_tag_indexes : ℕ → List TagDesc → List ℕ
unfolding first_if_empty
select_packed_tag_indexes connection_size [] = []
select_packed_tag_indexes connection_size (tag ∷ tags) =
    first_if_empty (select_from connection_size 0 0 0 0 (tag ∷ tags))

-- The last loop of selectPackedTagBatch: what stands at a selected position, and what stays pending.
unfoldable pub partition {ℓ} : {A : Type ℓ} → ℕ → List ℕ → List A → List A × List A
partition pos sel [] = ([], [])
partition pos [] (x ∷ xs) = ([], x ∷ xs)
partition pos (s ∷ sel) (x ∷ xs) = elim (s == pos) [
  | true ↦ let (chosen, next) = partition (suc pos) sel xs in (x ∷ chosen, next)
  | false ↦ let (chosen, next) = partition (suc pos) (s ∷ sel) xs in (chosen, x ∷ next)
]

-- `batchTags[i] = tags[idx]`, which panics out of range.
unfoldable pub tags_at : List TagDesc → List ℕ → Result (List TagDesc)
tags_at tags [] = ok []
tags_at tags (idx ∷ pending) = elim (get_elem? tags idx) [
  | none ↦ panic
  | some tag ↦ do rest ← tags_at tags pending; ok (tag ∷ rest)
]

-- selectPackedTagBatch: the indexes that are sent, and those that stay pending.
unfoldable pub select_packed_tag_batch : ℕ → List ℕ → List TagDesc → Result (List ℕ × List ℕ)
select_packed_tag_batch connection_size [] tags = ok ([], [])
select_packed_tag_batch connection_size (idx ∷ pending) tags = do
  batch_tags ← tags_at tags (idx ∷ pending)
  ok (partition 0 (select_packed_tag_indexes connection_size batch_tags) (idx ∷ pending))

-- The loop of ReadMap and ReadMapFrag, as the list of the batches that are sent.
unfoldable pub drain : ℕ → ℕ → List ℕ → List TagDesc → Result (List (List ℕ))
drain fuel connection_size [] tags = ok []
drain zero connection_size (idx ∷ pending) tags = panic
drain (suc fuel) connection_size (idx ∷ pending) tags = do
  batch ← select_packed_tag_batch connection_size (idx ∷ pending) tags
  batches ← drain fuel connection_size batch.1 tags
  ok (batch.0 ∷ batches)
