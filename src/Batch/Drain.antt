-- ===== src/Batch/Drain.antt =====
-- The read loop of ReadMap (read.go): every pending tag is sent once.
use mathlib.Core.List.{Perm}
use mathlib.Core.List.Perm
use gologix.Base.{ℕ, ◌+◌, ◌<◌, ◌≤◌, List, [], ◌∷◌, ◌++◌, length}
use gologix.Batch.{TagDesc}

-- The first position, if there is one, is inside the list.
abbrev Inside : ℕ → ℕ → List ℕ → Type 0
Inside i n [] = Unit {0}
Inside i n (s ∷ sel) = (i ≤ s) × (s < i + n)

-- A position of the list of tags.
abbrev pub IsIn : List TagDesc → ℕ → Type 0
IsIn tags idx = idx < length tags

-- The batches, one behind the other.
abbrev pub concat : List (List ℕ) → List ℕ
concat [] = []
concat (batch ∷ batches) = batch ++ concat batches
