-- ===== src/PartialRead/Tests.antt =====
-- Runs of ReadList's batching, and the theorems at concrete inputs.
use gologix.Base.{ℕ, ◌≡◌, refl, List, [], ◌∷◌, none, map}
use gologix.Base.Result.{Result, ok}
use gologix.Types.{size}
use gologix.Batch.{TagDesc, estimate_tag_response_size, struct_bytes}
use gologix.PartialRead.{plain_size, reaches, count_from, count_iois_that_fit}

abbrev lint : TagDesc
lint = record { tag_type = 0xC5; elements = 1; struct_size = none; ioi_length = 12 }

abbrev four : List TagDesc
four = lint ∷ lint ∷ lint ∷ lint ∷ []

-- Three tags take 30 + 2 * 3 + 3 * 16 = 84 bytes, four take 102.
count_run : count_iois_that_fit 100 four ≡ 3
unfolding count_iois_that_fit count_from reaches plain_size estimate_tag_response_size struct_bytes
    size
count_run = refl

abbrev type_of : TagDesc → ℕ
type_of tag = tag.tag_type

abbrev controller : List TagDesc → Result (List ℕ)
controller asked = ok (map type_of asked)
