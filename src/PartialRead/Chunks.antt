-- ===== src/PartialRead/Chunks.antt =====
-- The chunks of ReadList (partialread.go): they fit, and together they are the list.
use gologix.Base.{
  ℕ, suc, ◌+◌, ◌<◌, ◌≤◌, ◌≡◌, ◌⊎◌, inl, inr, refl, ◌∙◌, List, [], ◌∷◌, true, false, length, take,
  arith, Bool-cases,
}
use gologix.Base.Result.{Result}
use gologix.Batch.{
  TagDesc, estimate_multi_read_request_overhead, estimate_multi_read_reply_overhead,
  estimate_tag_response_size, packed_size,
}
use gologix.Batch.Fits.{response_sizes}
use gologix.PartialRead.{
  plain_size, reaches, count_from, count_iois_that_fit, count_frag_iois_that_fit,
}

-- The tags' bytes in a request.
unfoldable pub sizes : (TagDesc → ℕ) → List TagDesc → ℕ
sizes tag_bytes [] = 0
sizes tag_bytes (tag ∷ tags) = tag_bytes tag + sizes tag_bytes tags

module _ (c : ℕ) (tag_bytes : TagDesc → ℕ) where
  stop :
      (i n written resp : ℕ) (tag : TagDesc) (tags : List TagDesc)
      → reaches c tag_bytes tag i written resp ≡ true
      → count_from c tag_bytes i n written resp (tag ∷ tags) ≡ n
  unfolding count_from
  stop i n written resp tag tags e = rw (count_from, e)

  go_on :
      (i n written resp : ℕ) (tag : TagDesc) (tags : List TagDesc)
      → reaches c tag_bytes tag i written resp ≡ false
      → count_from c tag_bytes i n written resp (tag ∷ tags)
        ≡ count_from c tag_bytes
            (suc i)
            (suc i)
            (written + tag_bytes tag)
            (resp + estimate_tag_response_size tag)
            tags
  unfolding count_from
  go_on i n written resp tag tags e = rw (count_from, e)

  -- The first `k` of the tags fit behind `i` others.
  abbrev FitAfter : ℕ → ℕ → ℕ → ℕ → List TagDesc → Type 0
  FitAfter i written resp k tags =
      (estimate_multi_read_request_overhead (i + k) + written + sizes tag_bytes (take k tags) < c)
      × (estimate_multi_read_reply_overhead (i + k) + resp + response_sizes (take k tags) < c)

  -- The loop leaves the count as it was, or counts `k` more tags that fit.
  Counted : ℕ → ℕ → ℕ → ℕ → List TagDesc → ℕ → Type 0
  Counted i n written resp tags m =
      (m ≡ n)
      ⊎ ((k : ℕ) × (m ≡ i + suc k) × (suc k ≤ length tags) × FitAfter i written resp (suc k) tags)

  one_fits :
      (i written resp : ℕ) (tag : TagDesc) (tags : List TagDesc)
      → reaches c tag_bytes tag i written resp ≡ false
      → FitAfter i written resp 1 (tag ∷ tags)
  unfolding reaches sizes response_sizes
  one_fits i written resp tag tags e = ground arith

  more_fit :
      (i written resp k : ℕ) (tag : TagDesc) (tags : List TagDesc)
      → FitAfter (suc i) (written + tag_bytes tag) (resp + estimate_tag_response_size tag) k tags
      → FitAfter i written resp (suc k) (tag ∷ tags)
  unfolding sizes response_sizes
  more_fit i written resp k tag tags (h, j) = (omega arith, omega arith)

  counted :
      (i n written resp : ℕ) (tags : List TagDesc)
      → Counted i n written resp tags (count_from c tag_bytes i n written resp tags)
  unfolding Counted
  counted i n written resp [] = unfold count_from in inl refl
  counted i n written resp (tag ∷ tags) =
      elim (Bool-cases (reaches c tag_bytes tag i written resp)) [
        | inl e ↦ inl (stop i n written resp tag tags e)
        | inr e ↦
            elim (counted (suc i) (suc i) (written + tag_bytes tag)
              (resp + estimate_tag_response_size tag) tags) [
                | inl z ↦ inr (
                  0,
                  go_on i n written resp tag tags e ∙ z ∙ omega arith,
                  omega arith,
                  one_fits i written resp tag tags e,
                )
                | inr (k, z, l, f) ↦ inr (
                  suc k,
                  go_on i n written resp tag tags e ∙ z ∙ omega arith,
                  omega arith,
                  more_fit i written resp (suc k) tag tags f,
                )
              ]
      ]

-- A count of the first tags of a list: at least one, no more than there are, and either just one or
-- so many that their request and their reply are below the connection size.
abbrev pub IsCount : ℕ → (TagDesc → ℕ) → List TagDesc → ℕ → Type 0
IsCount c tag_bytes tags n =
    (0 < n)
    × (n ≤ length tags)
    × ((n ≡ 1)
        ⊎ ((estimate_multi_read_request_overhead n + sizes tag_bytes (take n tags) < c)
            × (estimate_multi_read_reply_overhead n + response_sizes (take n tags) < c)))

Counted-IsCount :
    (c : ℕ) (tag_bytes : TagDesc → ℕ) (tag : TagDesc) (tags : List TagDesc) (n : ℕ)
    → Counted c tag_bytes 0 1 0 0 (tag ∷ tags) n
    → IsCount c tag_bytes (tag ∷ tags) n
unfolding Counted
Counted-IsCount c tag_bytes tag tags n (inl z) = rw z (omega arith, omega arith, inl refl)
Counted-IsCount c tag_bytes tag tags n (inr (k, z, l, (f, g))) =
    rw (z ∙ zero_add k) (omega arith, l, inr (omega arith, omega arith))
  where
    zero_add : (k : ℕ) → 0 + suc k ≡ suc k
    zero_add k = omega arith

-- Of at least one tag, ReadList's count and that of the mixed reads are at least 1, at most the number
-- of tags, and more than 1 only where the estimated request and the estimated reply of so many first
-- tags are both below the connection size.
pub counts-IsCount :
    (c : ℕ) (tag : TagDesc) (tags : List TagDesc)
    → IsCount c plain_size (tag ∷ tags) (count_iois_that_fit c (tag ∷ tags))
      × IsCount c (packed_size c) (tag ∷ tags) (count_frag_iois_that_fit c (tag ∷ tags))
unfolding count_iois_that_fit count_frag_iois_that_fit
counts-IsCount c tag tags = (
  Counted-IsCount c plain_size tag tags _ (counted c plain_size 0 1 0 0 (tag ∷ tags)),
  Counted-IsCount c (packed_size c) tag tags _ (counted c (packed_size c) 0 1 0 0 (tag ∷ tags)),
)
