-- ===== src/Groups/Expand.antt =====
-- The names that expandArrayTag (taggroup.go) gives for the elements of an array tag.
use gologix.Base.{
  ℕ, zero, suc, ◌+◌, ◌^◌, ◌≤◌, ◌<◌, ◌≡◌, refl, sym, ap, ◌∙◌, List, [], ◌∷◌, ◌++◌, none, some,
  length, get_elem?, map, leb, All, lt→ltb, arith, leb→le, Bool-cases, inl, inr,
}
use gologix.Base.Int.{pos}
use gologix.Base.Result.{ok}
use gologix.Wire.{Bytes}
use gologix.Text.{contains, decimal, join}
use gologix.Text.Split.{Lacks, contains-append, contains-join}
use gologix.Ioi.Parse.{TagPart, parse_tag}
use gologix.Ioi.Parse.Names.{decimals-Lacks, parse_tag-indexed}
use gologix.Ioi.Names.{IsIndex, print_indices}
use gologix.Groups.{
  before_last, index_text, bump, indexed_name, element_names, expand_parsed, expand_array_tag,
}

before_last-Lacks : (c : ℕ) (s : Bytes) → Lacks c s → before_last c s ≡ none
unfolding before_last contains
before_last-Lacks c [] h = refl
before_last-Lacks c (x ∷ s) h = ground (arith, before_last-Lacks c s)

before_last-append : (c : ℕ) (p s : Bytes) → Lacks c s → before_last c (p ++ (c ∷ s)) ≡ some p
unfolding before_last
before_last-append c [] s h = rw (before_last-Lacks c s h) (ground arith)
before_last-append c (x ∷ p) s h = rw (before_last-append c p s h) refl

-- The greatest number that a list of indices reaches by counting `n` up from the last one.
abbrev pub FitsTo : ℕ → ℕ → List ℕ → Type 0
FitsTo n i [] = i + n < 65536
FitsTo n i (j ∷ is) = (i < 65536) × FitsTo n j is

FitsTo-le : (k n i : ℕ) (is : List ℕ) → k ≤ n → FitsTo n i is → FitsTo k i is
FitsTo-le k n i [] l h = omega arith
FitsTo-le k n i (j ∷ is) l h = (h.0, FitsTo-le k n j is l h.1)

bump-IsIndex : (k i : ℕ) (is : List ℕ) → FitsTo k i is → All IsIndex (bump k i is)
unfolding bump
bump-IsIndex k i [] h = (h, tt)
bump-IsIndex k i (j ∷ is) h = (h.0, bump-IsIndex k j is h.1)

index_texts : (is : List ℕ) → All IsIndex is → map index_text is ≡ map decimal is
unfolding index_text
index_texts [] h = refl
index_texts (i ∷ is) h = rw (lt→ltb i (2 ^ 63) (omega arith), index_texts is h.1) refl

indexed_name-print :
    (name : Bytes) (i : ℕ) (is : List ℕ)
    → All IsIndex (i ∷ is)
    → indexed_name name (i ∷ is) ≡ name ++ print_indices (i ∷ is)
unfolding indexed_name print_indices
indexed_name-print name i is h = rw (index_texts (i ∷ is) h) refl

element_names-get_elem? :
    (prefix : Bytes) (i : ℕ) (is : List ℕ) (from n k : ℕ)
    → k < n
    → get_elem? (element_names prefix i is from n) k
      ≡ some (indexed_name prefix (bump (from + k) i is))
unfolding element_names
element_names-get_elem? prefix i is from zero k h = absurd (omega arith)
element_names-get_elem? prefix i is from (suc n) zero h =
    ap (λ m. some (indexed_name prefix (bump m i is))) (omega arith)
element_names-get_elem? prefix i is from (suc n) (suc k) h =
    element_names-get_elem? prefix i is (from + 1) n k (omega arith)
    ∙ ap (λ m. some (indexed_name prefix (bump m i is))) (omega arith)

length-element_names :
    (prefix : Bytes) (i : ℕ) (is : List ℕ) (from n : ℕ)
    → length (element_names prefix i is from n) ≡ n
unfolding element_names
length-element_names prefix i is from zero = refl
length-element_names prefix i is from (suc n) =
    ap suc (length-element_names prefix i is (from + 1) n)

bump_cons : (k i : ℕ) (is : List ℕ) → (j : ℕ) × (js : List ℕ) × (bump k i is ≡ j ∷ js)
unfolding bump
bump_cons k i [] = (i + k, [], refl)
bump_cons k i (j ∷ is) = (i, bump k j is, refl)

indices_Lack : (is : List ℕ) → Lacks b'[' (join b',' (map decimal is) ++ (b']' ∷ []))
unfolding contains
indices_Lack is = rw (
  contains-append b'[' (join b',' (map decimal is)) (b']' ∷ []),
  contains-join b'[' b',' (map decimal is) refl refl (decimals-Lacks b'[' is refl),
)

counted :
    (base name : Bytes) (n i : ℕ) (is : List ℕ) (t : TagPart)
    → t.array_order ≡ i ∷ is
    → expand_parsed base n (some name) (ok t) ≡ element_names name i is 0 n
unfolding expand_parsed
counted base name n i is t e = rw e refl

expanded :
    (name : Bytes) (i : ℕ) (is : List ℕ) (n : ℕ)
    → Lacks b'.' name
    → Lacks b'[' name
    → All IsIndex (i ∷ is)
    → 1 < n
    → expand_array_tag (name ++ print_indices (i ∷ is)) (pos n) ≡ element_names name i is 0 n
unfolding expand_array_tag
expanded name i is n no_dot no_open h l =
    let (t, parsed, order) = parse_tag-indexed name i is no_dot no_open h in
    let cut : before_last b'[' (name ++ print_indices (i ∷ is)) ≡ some name = printed_cut in
    elim (Bool-cases (leb n 1)) [
      | inl e ↦ absurd (omega (arith, leb→le n 1 e))
      | inr e ↦ rw (e, cut, parsed) (counted (name ++ print_indices (i ∷ is)) name n i is t order)
    ]
  where
    printed_cut : before_last b'[' (name ++ print_indices (i ∷ is)) ≡ some name
    printed_cut = unfold print_indices in before_last-append b'[' name _ (indices_Lack (i ∷ is))

-- For a name without dots and brackets, followed by indices below 65536 of which the last can be counted up by
-- `n`, at least 2, and stay below 65536, expandArrayTag gives `n` names, and the parser of tag names finds
-- in the one numbered `k` the same indices, with `k` more in the last.
pub parse_tag-expand_array_tag :
    (name : Bytes) (i : ℕ) (is : List ℕ) (n k : ℕ)
    → Lacks b'.' name
    → Lacks b'[' name
    → All IsIndex (i ∷ is)
    → FitsTo n i is
    → 1 < n
    → k < n
    → (length (expand_array_tag (name ++ print_indices (i ∷ is)) (pos n)) ≡ n)
      × (s : Bytes) × (t : TagPart) × (get_elem?
            (expand_array_tag (name ++ print_indices (i ∷ is)) (pos n))
            k
          ≡ some s)
      × (parse_tag s ≡ ok t)
      × (t.array_order ≡ bump k i is)
parse_tag-expand_array_tag name i is n k no_dot no_open h fits l below =
    let all = expanded name i is n no_dot no_open h l in
    let (j, js, e) = bump_cons k i is in
    let small : All IsIndex (bump k i is) =
      bump-IsIndex k i is (FitsTo-le k n i is (omega arith) fits) in
    let (t, parsed, order) = parse_tag-indexed name j js no_dot no_open (rw e at small) in
    let printed : indexed_name name (bump k i is) ≡ name ++ print_indices (j ∷ js) =
      ap (indexed_name name) e ∙ indexed_name-print name j js (rw e at small) in
    let there : get_elem? (expand_array_tag (name ++ print_indices (i ∷ is)) (pos n)) k
        ≡ some (name ++ print_indices (j ∷ js)) =
      ap (λ names. get_elem? names k) all
      ∙ element_names-get_elem? name i is 0 n k below
      ∙ ap (λ m. some (indexed_name name (bump m i is))) (omega arith)
      ∙ ap some printed in
    (
      ap length all ∙ length-element_names name i is 0 n,
      name ++ print_indices (j ∷ js),
      t,
      there,
      parsed,
      order ∙ sym e,
    )
