-- ===== src/PartialRead.antt =====
-- partialread.go: ReadList, which reads a list of tags in order; read.go: countFragIOIsThatFit.
pub mod Chunks
mod Tests
use gologix.Base.{
  ℕ, zero, suc, ◌+◌, List, [], ◌∷◌, ◌++◌, Bool, true, false, length, take, drop, leb, ltb, ◌||◌,
  if◌then◌else◌,
}
use gologix.Base.Result.{Result, ok, err, panic, ◌>>=◌}
use gologix.Batch.{
  TagDesc, estimate_multi_read_request_overhead, estimate_multi_read_reply_overhead,
  estimate_tag_response_size, packed_size,
}

-- A tag's bytes in a request of ReadList: the header, the IOI and the footer of a plain read.
unfoldable pub plain_size : TagDesc → ℕ
plain_size tag = 2 + tag.ioi_length + 2

-- Whether the tag behind `i` others reaches the connection size, in the request or in the reply.
unfoldable pub reaches : ℕ → (TagDesc → ℕ) → TagDesc → ℕ → ℕ → ℕ → Bool
reaches connection_size tag_bytes tag i written response_size =
    leb connection_size (estimate_multi_read_request_overhead (suc i) + written + tag_bytes tag)
    || leb connection_size (
        estimate_multi_read_reply_overhead (suc i) + response_size + estimate_tag_response_size tag)

-- The loop from tag `i` on, with the count so far. It ends at the first tag that does not fit.
unfoldable pub count_from : ℕ → (TagDesc → ℕ) → ℕ → ℕ → ℕ → ℕ → List TagDesc → ℕ
count_from connection_size tag_bytes i n written response_size [] = n
count_from connection_size tag_bytes i n written response_size (tag ∷ tags) =
    elim (reaches connection_size tag_bytes tag i written response_size) [
      | true ↦ n
      | false ↦
          count_from connection_size tag_bytes (suc i) (suc i) (written + tag_bytes tag)
            (response_size + estimate_tag_response_size tag) tags
    ]

unfoldable pub count_iois_that_fit : ℕ → List TagDesc → ℕ
count_iois_that_fit connection_size tags = count_from connection_size plain_size 0 1 0 0 tags

-- The same for the mixed plain and fragmented reads.
unfoldable pub count_frag_iois_that_fit : ℕ → List TagDesc → ℕ
count_frag_iois_that_fit connection_size tags =
    count_from connection_size (packed_size connection_size) 0 1 0 0 tags

-- The slice expressions `tags[:n]` and `tags[n:]`, of a slice without spare capacity: a count beyond the tags
-- panics.
unfoldable pub split_at : ℕ → List TagDesc → Result (List TagDesc × List TagDesc)
split_at n tags = if ltb (length tags) n then panic else ok (take n tags, drop n tags)

-- The loop of ReadList over the tags that are left, on fuel: each round reads the tags that fit, with
-- `read` for readList, which talks to the controller, and appends what it returns.
unfoldable pub read_list {ℓ} :
    {A : Type ℓ} → (List TagDesc → Result (List A)) → ℕ → ℕ → List TagDesc → Result (List A)
read_list read fuel connection_size [] = ok []
read_list read zero connection_size (tag ∷ tags) = panic
read_list read (suc fuel) connection_size (tag ∷ tags) = do
  parts ← split_at (count_iois_that_fit connection_size (tag ∷ tags)) (tag ∷ tags)
  subresults ← read parts.0
  results ← read_list read fuel connection_size parts.1
  ok (subresults ++ results)
