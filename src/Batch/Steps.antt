-- ===== src/Batch/Steps.antt =====
-- One step of the loops of selectPackedTagIndexes and selectPackedTagBatch (read.go), by its test.
use gologix.Base.{ℕ, suc, ◌+◌, ◌≡◌, List, ◌∷◌, true, false, ◌==◌}
use gologix.Batch.{
  TagDesc, too_big, packed_size, estimate_tag_response_size, select_from, partition,
}

module _ {ℓ} {A : Type ℓ} (pos s : ℕ) (sel : List ℕ) (x : A) (xs : List A) where
  pub partition-hit :
      (s == pos) ≡ true
      → partition pos (s ∷ sel) (x ∷ xs)
        ≡ (x ∷ (partition (suc pos) sel xs).0, (partition (suc pos) sel xs).1)
  unfolding partition
  partition-hit e = rw (partition, e)

  pub partition-miss :
      (s == pos) ≡ false
      → partition pos (s ∷ sel) (x ∷ xs)
        ≡ ((partition (suc pos) (s ∷ sel) xs).0, x ∷ (partition (suc pos) (s ∷ sel) xs).1)
  unfolding partition
  partition-miss e = rw (partition, e)

module _ (c i count packed resp : ℕ) (tag : TagDesc) (tags : List TagDesc) where
  pub select_from-skip :
      too_big c tag count packed resp ≡ true
      → select_from c i count packed resp (tag ∷ tags)
        ≡ select_from c (suc i) count packed resp tags
  unfolding select_from
  select_from-skip e = rw (select_from, e)

  pub select_from-pick :
      too_big c tag count packed resp ≡ false
      → select_from c i count packed resp (tag ∷ tags)
        ≡ i
          ∷ select_from c
              (suc i)
              (suc count)
              (packed + packed_size c tag)
              (resp + estimate_tag_response_size tag)
              tags
  unfolding select_from
  select_from-pick e = rw (select_from, e)
