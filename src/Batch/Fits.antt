-- ===== src/Batch/Fits.antt =====
-- The tags that selectPackedTagIndexes (read.go) picks fit one request and one reply.
use gologix.Base.{
  ℕ, suc, ◌+◌, ◌<◌, ◌≤◌, ◌≡◌, ◌⊎◌, inl, inr, refl, List, [], ◌∷◌, false, length, ◌==◌, arith,
  Bool-cases, ==_iff,
}
use gologix.Batch.Steps.{partition-hit, partition-miss, select_from-skip, select_from-pick}
use gologix.Batch.{
  TagDesc, estimate_multi_read_request_overhead, estimate_multi_read_reply_overhead,
  estimate_tag_response_size, packed_size, too_big, select_from, select_packed_tag_indexes,
  partition, first_if_empty,
}

-- The sizes of a request for some tags and of its reply, as the code estimates them.
unfoldable pub packed_sizes : ℕ → List TagDesc → ℕ
packed_sizes connection_size [] = 0
packed_sizes connection_size (tag ∷ tags) =
    packed_size connection_size tag + packed_sizes connection_size tags

unfoldable pub response_sizes : List TagDesc → ℕ
response_sizes [] = 0
response_sizes (tag ∷ tags) = estimate_tag_response_size tag + response_sizes tags

abbrev pub request_bytes : ℕ → List TagDesc → ℕ
request_bytes connection_size tags =
    estimate_multi_read_request_overhead (length tags) + packed_sizes connection_size tags

abbrev pub reply_bytes : List TagDesc → ℕ
reply_bytes tags = estimate_multi_read_reply_overhead (length tags) + response_sizes tags

-- No position before `j` comes first.
abbrev pub Later : ℕ → List ℕ → Type 0
Later j [] = Unit {0}
Later j (s ∷ sel) = j ≤ s

Later-suc : (j : ℕ) (sel : List ℕ) → Later (suc j) sel → Later j sel
Later-suc j [] h = tt
Later-suc j (s ∷ sel) h = omega arith

pub select_from-Later :
    (c i count packed resp : ℕ) (tags : List TagDesc)
    → Later i (select_from c i count packed resp tags)
unfolding select_from
select_from-Later c i count packed resp [] = tt
select_from-Later c i count packed resp (tag ∷ tags) =
    elim (Bool-cases (too_big c tag count packed resp)) [
      | inl e ↦
          rw (select_from-skip c i count packed resp tag tags e)
            (Later-suc i _ (select_from-Later c (suc i) count packed resp tags))
      | inr e ↦ rw (select_from-pick c i count packed resp tag tags e) (omega arith)
    ]

pub partition-Later {ℓ} :
    {A : Type ℓ} (i : ℕ) (sel : List ℕ) (x : A) (xs : List A)
    → Later (suc i) sel
    → (partition i sel (x ∷ xs)).0 ≡ (partition (suc i) sel xs).0
unfolding partition
partition-Later i [] x [] h = refl
partition-Later i [] x (y ∷ xs) h = refl
partition-Later i (s ∷ sel) x xs h = elim (Bool-cases (s == i)) [
  | inl e ↦ absurd (ground arith)
  | inr e ↦ rw (partition-miss i s sel x xs e)
]

partition-here {ℓ} :
    {A : Type ℓ} (i : ℕ) (sel : List ℕ) (x : A) (xs : List A)
    → (partition i (i ∷ sel) (x ∷ xs)).0 ≡ x ∷ (partition (suc i) sel xs).0
unfolding partition
partition-here i sel x xs = rw (partition-hit i i sel x xs ((==_iff i i).1 refl))

-- With `count` tags of these sizes before them, the chosen tags fit.
abbrev FitsAfter : ℕ → ℕ → ℕ → ℕ → List TagDesc → Type 0
FitsAfter c count packed resp chosen =
    (estimate_multi_read_request_overhead (count + length chosen) + packed + packed_sizes c chosen
      < c)
    × (estimate_multi_read_reply_overhead (count + length chosen) + resp + response_sizes chosen
        < c)

not_too_big :
    (c : ℕ) (tag : TagDesc) (count packed resp : ℕ)
    → too_big c tag count packed resp ≡ false
    → FitsAfter c count packed resp (tag ∷ [])
unfolding too_big packed_sizes response_sizes
not_too_big c tag count packed resp h = ground arith

FitsAfter-cons :
    (c : ℕ) (tag : TagDesc) (count packed resp : ℕ) (chosen : List TagDesc)
    → FitsAfter c
        (suc count)
        (packed + packed_size c tag)
        (resp + estimate_tag_response_size tag)
        chosen
    → FitsAfter c count packed resp (tag ∷ chosen)
unfolding packed_sizes response_sizes
FitsAfter-cons c tag count packed resp chosen (h, k) = (omega arith, omega arith)

partition_none {ℓ} : {A : Type ℓ} (i : ℕ) (xs : List A) → (partition i [] xs).0 ≡ []
unfolding partition
partition_none i [] = refl
partition_none i (x ∷ xs) = refl

picked :
    (c i : ℕ) (tag : TagDesc) (count packed resp : ℕ) (tags : List TagDesc) (sel : List ℕ)
    → too_big c tag count packed resp ≡ false
    → (sel ≡ [])
      ⊎ FitsAfter c
          (suc count)
          (packed + packed_size c tag)
          (resp + estimate_tag_response_size tag)
          (partition i sel tags).0
    → FitsAfter c count packed resp (tag ∷ (partition i sel tags).0)
picked c i tag count packed resp tags sel e (inl z) =
    rw (z, partition_none i tags) (not_too_big c tag count packed resp e)
picked c i tag count packed resp tags sel e (inr f) = FitsAfter-cons c tag count packed resp _ f

select_from-FitsAfter :
    (c i count packed resp : ℕ) (tags : List TagDesc)
    → (select_from c i count packed resp tags ≡ [])
      ⊎ FitsAfter c count packed resp (partition i (select_from c i count packed resp tags) tags).0
select_from-FitsAfter c i count packed resp [] = unfold select_from in inl refl
select_from-FitsAfter c i count packed resp (tag ∷ tags) =
    elim (Bool-cases (too_big c tag count packed resp)) [
      | inl e ↦
          rw
            (
              select_from-skip c i count packed resp tag tags e,
              partition-Later i _ tag tags (select_from-Later c (suc i) count packed resp tags),
            )
            (select_from-FitsAfter c (suc i) count packed resp tags)
      | inr e ↦
          rw (select_from-pick c i count packed resp tag tags e, partition-here i _ tag tags)
            (inr (
              picked c (suc i) tag count packed resp tags _ e (
                select_from-FitsAfter c (suc i) (suc count) (packed + packed_size c tag)
                  (resp + estimate_tag_response_size tag) tags)))
    ]

fits_or_first :
    (c : ℕ) (tag : TagDesc) (tags : List TagDesc) (sel : List ℕ)
    → (sel ≡ []) ⊎ FitsAfter c 0 0 0 (partition 0 sel (tag ∷ tags)).0
    → ((partition 0 (first_if_empty sel) (tag ∷ tags)).0 ≡ tag ∷ [])
      ⊎ ((request_bytes c (partition 0 (first_if_empty sel) (tag ∷ tags)).0 < c)
          × (reply_bytes (partition 0 (first_if_empty sel) (tag ∷ tags)).0 < c))
unfolding first_if_empty
fits_or_first c tag tags [] f = inl (rw (partition-here 0 [] tag tags, partition_none 1 tags))
fits_or_first c tag tags (s ∷ sel) (inl z) = cc
fits_or_first c tag tags (s ∷ sel) (inr (h, k)) = inr (omega arith, omega arith)

-- Of at least one tag, selectPackedTagIndexes picks the first tag alone, or tags whose estimated
-- request and whose estimated reply are both below the connection size.
pub select_packed_tag_indexes_fits :
    (c : ℕ) (tag : TagDesc) (tags : List TagDesc)
    → ((partition 0 (select_packed_tag_indexes c (tag ∷ tags)) (tag ∷ tags)).0 ≡ tag ∷ [])
      ⊎ ((request_bytes c (partition 0 (select_packed_tag_indexes c (tag ∷ tags)) (tag ∷ tags)).0
            < c)
          × (reply_bytes (partition 0 (select_packed_tag_indexes c (tag ∷ tags)) (tag ∷ tags)).0
              < c))
unfolding select_packed_tag_indexes
select_packed_tag_indexes_fits c tag tags =
    fits_or_first c tag tags (select_from c 0 0 0 0 (tag ∷ tags))
      (select_from-FitsAfter c 0 0 0 0 (tag ∷ tags))
