-- ===== src/Ioi/Parse/Names.antt =====
-- What parseTag in ioi.go finds in a part with indices and in a part without.
use gologix.Base.{ℕ, ◌≡◌, refl, List, [], ◌∷◌, ◌++◌, true, false, arith, All, map, none, some}
use gologix.Base.Int.{pos}
use gologix.Base.Result.{ok}
use gologix.Wire.{Bytes}
use gologix.Text.{contains, join, decimal, is_digit, remove_text}
use gologix.Text.Decimal.{atoi-decimal, contains-decimal}
use gologix.Text.Split.{Lacks, split-join, contains-append, contains-join}
use gologix.Text.Find.{All-append, contains_separator, IsDigit, decimal-IsDigit}
use gologix.Ioi.{symbolic, marshal_ioi_part}
use gologix.Ioi.Parse.{
  TagPart, parse_tag, bit_access_text, array_access_text, index_body, is_index_char, index_numbers,
  parse_order,
}
use gologix.Ioi.Names.{IsIndex, print_indices}

pub bit_access_text-Lacks : (s : Bytes) → Lacks b'.' s → bit_access_text s ≡ none
unfolding bit_access_text contains
bit_access_text-Lacks [] h = refl
bit_access_text-Lacks (c ∷ s) h = ground (arith, bit_access_text-Lacks s)

array_access_text-Lacks : (s : Bytes) → Lacks b'[' s → array_access_text s ≡ none
unfolding array_access_text contains
array_access_text-Lacks [] h = refl
array_access_text-Lacks (c ∷ s) h = ground (arith, array_access_text-Lacks s)

pub marshal-Lacks : (s : Bytes) → Lacks b'.' s → Lacks b'[' s → marshal_ioi_part s ≡ ok (symbolic s)
unfolding marshal_ioi_part parse_tag
marshal-Lacks s h k = rw (bit_access_text-Lacks s h, array_access_text-Lacks s k)

IsIndexChar : ℕ → Type 0
IsIndexChar c = is_index_char c ≡ true

index_body-append :
    (body : Bytes) → All IsIndexChar body → index_body (body ++ (b']' ∷ [])) ≡ some body
unfolding index_body IsIndexChar
index_body-append [] h = refl
index_body-append (c ∷ []) (h, _) = rw h
index_body-append (c ∷ d ∷ s) (h, hs) = rw (h, index_body-append (d ∷ s) hs)

array_access_text-append :
    (name body : Bytes)
    → Lacks b'[' name
    → All IsIndexChar body
    → array_access_text (name ++ (b'[' ∷ (body ++ (b']' ∷ [])))) ≡ some body
unfolding array_access_text contains
array_access_text-append [] body h k = rw (index_body-append body k, array_access_text)
array_access_text-append (c ∷ name) body h k = ground (arith, array_access_text-append name body)

All-map :
    {P : ℕ → Type 0} {Q : ℕ → Type 0} (f : (c : ℕ) → P c → Q c) (s : Bytes) → All P s → All Q s
All-map f [] h = tt
All-map f (c ∷ s) (h, hs) = (f c h, All-map f s hs)

digit-IsIndexChar : (c : ℕ) → IsDigit c → IsIndexChar c
unfolding IsIndexChar
digit-IsIndexChar c h = rw h

-- The text between the brackets.
abbrev pub index_list : ℕ → List ℕ → Bytes
index_list i is = join b',' (map decimal (i ∷ is))

index_list-IsIndexChar : (i : ℕ) (is : List ℕ) → All IsIndexChar (index_list i is)
unfolding join
index_list-IsIndexChar i [] = All-map digit-IsIndexChar (decimal i) (decimal-IsDigit i)
index_list-IsIndexChar i (j ∷ is) =
    All-append IsIndexChar (decimal i) _ (All-map digit-IsIndexChar (decimal i) (decimal-IsDigit i))
      (unfold IsIndexChar in refl, index_list-IsIndexChar j is)

index_numbers-decimals : (is : List ℕ) → All IsIndex is → index_numbers (map decimal is) ≡ ok is
unfolding index_numbers
index_numbers-decimals [] h = refl
index_numbers-decimals (i ∷ is) (h, hs) =
    rw (atoi-decimal i (omega arith)) (rw (index_numbers-decimals is hs))

pub decimals-Lacks : (c : ℕ) (is : List ℕ) → is_digit c ≡ false → All (Lacks c) (map decimal is)
decimals-Lacks c [] h = tt
decimals-Lacks c (i ∷ is) h = (contains-decimal c i h, decimals-Lacks c is h)

contains-index_list : (i j : ℕ) (is : List ℕ) → contains b',' (index_list i (j ∷ is)) ≡ true
unfolding join
contains-index_list i j is = contains_separator b',' (decimal i) _

parse_order-index_list :
    (i : ℕ) (is : List ℕ) → All IsIndex (i ∷ is) → parse_order (index_list i is) ≡ ok (i ∷ is)
unfolding parse_order
parse_order-index_list i [] h =
    unfold join in rw (contains-decimal b',' i refl) (index_numbers-decimals (i ∷ []) h)
parse_order-index_list i (j ∷ is) h =
    rw
      (
        contains-index_list i j is,
        split-join b',' (decimal i) (map decimal (j ∷ is)) (decimals-Lacks b',' (i ∷ j ∷ is) refl),
      )
      (index_numbers-decimals (i ∷ j ∷ is) h)

pub indexed-Lacks :
    (name : Bytes) (i : ℕ) (is : List ℕ)
    → Lacks b'.' name
    → Lacks b'.' (name ++ print_indices (i ∷ is))
unfolding print_indices contains
indexed-Lacks name i is h = rw (
  contains-append b'.' name _,
  h,
  contains-append b'.' (index_list i is) (b']' ∷ []),
  contains-join b'.' b',' (map decimal (i ∷ is)) refl refl (decimals-Lacks b'.' (i ∷ is) refl),
)

pub parse_tag-indexed :
    (name : Bytes) (i : ℕ) (is : List ℕ)
    → Lacks b'.' name
    → Lacks b'[' name
    → All IsIndex (i ∷ is)
    → (t : TagPart) × (parse_tag (name ++ print_indices (i ∷ is)) ≡ ok t) × (t.array_order ≡ i ∷ is)
unfolding parse_tag print_indices
parse_tag-indexed name i is no_dot no_open h = (
  record {
    full_path = name ++ print_indices (i ∷ is);
    base_path = remove_text (index_list i is) (name ++ print_indices (i ∷ is));
    array_order = i ∷ is;
    bit_number = pos 0;
    bit_access = false;
  },
  rw (
    bit_access_text-Lacks _ (indexed-Lacks name i is no_dot),
    array_access_text-append name (index_list i is) no_open (index_list-IsIndexChar i is),
    parse_order-index_list i is h,
  ),
  refl,
)
