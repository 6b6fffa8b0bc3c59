-- ===== src/Batch/Tests.antt =====
-- Runs of the batching, and the theorems at concrete inputs.
use gologix.Base.{◌<◌, ◌≡◌, ◌⊎◌, refl, List, [], ◌∷◌, none}
use gologix.Base.Result.{ok}
use gologix.Types.{size}
use gologix.Batch.{
  TagDesc, drain, select_packed_tag_batch, select_packed_tag_indexes, select_from, partition,
  too_big, packed_size, is_frag_read, estimate_tag_response_size, struct_bytes, tags_at,
}
use gologix.Batch.Fits.{request_bytes, reply_bytes, select_packed_tag_indexes_fits}

abbrev dint : TagDesc
dint = record { tag_type = 0xC4; elements = 1; struct_size = none; ioi_length = 10 }

abbrev dints : TagDesc
dints = record { tag_type = 0xC4; elements = 100; struct_size = none; ioi_length = 10 }

abbrev three : List TagDesc
three = dints ∷ dint ∷ dint ∷ []

-- On a connection of 100 bytes the array is passed over and goes alone behind the others.
drain_run : drain 3 100 (0 ∷ 1 ∷ 2 ∷ []) three ≡ ok ((1 ∷ 2 ∷ []) ∷ (0 ∷ []) ∷ [])
unfolding drain select_packed_tag_batch select_packed_tag_indexes select_from partition too_big
    packed_size is_frag_read estimate_tag_response_size struct_bytes tags_at size
drain_run = refl

select_packed_tag_indexes_fits_example :
    ((partition 0 (select_packed_tag_indexes 100 three) three).0 ≡ dints ∷ [])
    ⊎ ((request_bytes 100 (partition 0 (select_packed_tag_indexes 100 three) three).0 < 100)
        × (reply_bytes (partition 0 (select_packed_tag_indexes 100 three) three).0 < 100))
select_packed_tag_indexes_fits_example = select_packed_tag_indexes_fits 100 dints (dint ∷ dint ∷ [])
