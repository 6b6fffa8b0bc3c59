-- ===== src/Groups.antt =====
-- taggroup.go: the definitions of a tag group, the Go values that its tags are read into, and the names that
-- an array tag stands for.
pub mod Zeros
pub mod Expand
mod Tests
use gologix.Base.{
  ℕ, zero, suc, ◌+◌, ◌-◌, ◌^◌, ◌≡◌, refl, List, [], ◌∷◌, ◌++◌, Bool, true, false, Option, none,
  some, length, replicate, map, ltb, leb, ◌==◌, if◌then◌else◌,
}
use gologix.Base.Int.{ℤ, pos, negsuc}
use gologix.Base.Result.{Result, ok, err, panic}
use gologix.Wire.{Bytes}
use gologix.Text.{starts_with, decimal, join}
use gologix.Types.Values.{
  NumType, uint8, int8, uint16, int16, uint32, int32, uint64, int64, float32, float64, GoVar,
  bool_var, num_var, string_var, num_slice, string_slice, other_var, find,
}
use gologix.Ioi.Parse.{TagPart, parse_tag}

pub record TagDef : Type 0 where
  pub name : Bytes
  pub type_code : ℕ
  pub elements : ℤ

-- NewTagGroup: 0 elements or fewer become one.
unfoldable pub at_least_one : ℤ → ℤ
at_least_one (pos n) = if n == 0 then pos 1 else pos n
at_least_one (negsuc n) = pos 1

unfoldable pub new_tag_group : List TagDef → List TagDef
unfolding at_least_one
new_tag_group defs =
    map (λ (def : TagDef). record def { elements = at_least_one def.elements }) defs

-- The scan of strings.ReplaceAll of the text `t`, which is not empty, by `r`, with `k` bytes of a match to skip.
unfoldable pub replace_scan : Bytes → Bytes → ℕ → Bytes → Bytes
replace_scan t r k [] = []
replace_scan t r (suc k) (x ∷ s) = replace_scan t r k s
replace_scan t r zero (x ∷ s) = elim (starts_with t (x ∷ s)) [
  | true ↦ r ++ replace_scan t r (length t - 1) s
  | false ↦ x ∷ replace_scan t r zero s
]

unfoldable pub placeholder : ℕ → Bytes
placeholder i = b'{' ∷ (decimal i ++ (b'}' ∷ []))

-- formatName, of arguments that are texts already; `i` is the index of the first of them.
unfoldable pub format_from : ℕ → Bytes → List Bytes → Bytes
unfolding replace_scan placeholder
format_from i s [] = s
format_from i s (arg ∷ args) = format_from (i + 1) (replace_scan (placeholder i) arg 0 s) args

unfoldable pub format_name : Bytes → List Bytes → Bytes
unfolding format_from
format_name template args = format_from 0 template args

-- The Go types of zeroValueForTagDef: bools, numbers of a type, or strings.
pub data ZeroKind : Type 0 where
  bools : ZeroKind
  numbers : NumType → ZeroKind
  strings : ZeroKind

-- The cases that a slice and a scalar have in common, by the code.
abbrev pub common : List (ℕ × ZeroKind)
common =
    (0xC1, bools)
    ∷ (0xC2, numbers int8)
    ∷ (0xD1, numbers uint8)
    ∷ (0xC6, numbers uint8)
    ∷ (0xC3, numbers int16)
    ∷ (0xC7, numbers uint16)
    ∷ (0xC4, numbers int32)
    ∷ (0xC8, numbers uint32)
    ∷ (0xD3, numbers uint32)
    ∷ (0xC5, numbers int64)
    ∷ (0xD4, numbers uint64)
    ∷ (0xC9, numbers uint64)
    ∷ (0xCA, numbers float32)
    ∷ (0xCB, numbers float64)
    ∷ (0xFF, strings)
    ∷ []

-- Every other code is that of an int32.
abbrev or_int32 : Option ZeroKind → ZeroKind
or_int32 none = numbers int32
or_int32 (some k) = k

unfoldable pub slice_kind : ℕ → ZeroKind
unfolding find
slice_kind t = or_int32 (find t common)

-- A scalar can be a WORD as well.
unfoldable pub scalar_kind : ℕ → ZeroKind
unfolding find
scalar_kind t = or_int32 (find t ((0xD2, numbers uint16) ∷ common))

-- A slice of bools is a type that GoVarToCIPType does not know.
unfoldable pub make_slice : ZeroKind → ℕ → GoVar
make_slice bools n = other_var
make_slice (numbers k) n = num_slice k n
make_slice strings n = string_slice n

unfoldable pub make_scalar : ZeroKind → GoVar
make_scalar bools = bool_var
make_scalar (numbers k) = num_var k
make_scalar strings = string_var

-- zeroValueForTagDef, as the variable that GoVarToCIPType looks at.
unfoldable pub zero_value_for_tag_def : TagDef → GoVar
unfolding make_slice make_scalar slice_kind scalar_kind
zero_value_for_tag_def def = elim def.elements [
  | pos n ↦
      (if ltb 1 n
        then make_slice (slice_kind def.type_code) n
        else make_scalar (scalar_kind def.type_code))
  | negsuc n ↦ make_scalar (scalar_kind def.type_code)
]

-- `baseName[:strings.LastIndex(baseName, "[")]`
unfoldable pub before_last : ℕ → Bytes → Option Bytes
before_last c [] = none
before_last c (x ∷ s) = elim (before_last c s) [
  | some p ↦ some (x ∷ p)
  | none ↦ if x == c then some [] else none
]

-- %d of a 64-bit int that `baseIndex+i` can overflow.
unfoldable pub index_text : ℕ → Bytes
index_text n = if ltb n (2 ^ 63) then decimal n else b'-' ∷ decimal (2 ^ 64 - n)

-- The indices with `k` more in the last one.
unfoldable pub bump : ℕ → ℕ → List ℕ → List ℕ
bump k i [] = (i + k) ∷ []
bump k i (j ∷ is) = i ∷ bump k j is

unfoldable pub indexed_name : Bytes → List ℕ → Bytes
unfolding index_text
indexed_name prefix order = prefix ++ (b'[' ∷ (join b',' (map index_text order) ++ (b']' ∷ [])))

-- The loop over the elements, `n` of them from the one numbered `k` on.
unfoldable pub element_names : Bytes → ℕ → List ℕ → ℕ → ℕ → List Bytes
unfolding bump indexed_name
element_names prefix i is k zero = []
element_names prefix i is k (suc n) =
    indexed_name prefix (bump k i is) ∷ element_names prefix i is (k + 1) n

unfoldable pub expand_parsed : Bytes → ℕ → Option Bytes → Result TagPart → List Bytes
unfolding element_names
expand_parsed base n prefix (err e) = replicate n base
expand_parsed base n prefix panic = replicate n base
expand_parsed base n none (ok tag) = replicate n base
expand_parsed base n (some prefix) (ok tag) = elim tag.array_order [
  | [] ↦ replicate n base
  | i ∷ is ↦ element_names prefix i is 0 n
]

-- expandArrayTag. parse_tag_name does not panic.
unfoldable pub expand_array_tag : Bytes → ℤ → List Bytes
unfolding expand_parsed before_last
expand_array_tag base (negsuc n) = base ∷ []
expand_array_tag base (pos n) =
    if leb n 1 then base ∷ [] else expand_parsed base n (before_last b'[' base) (parse_tag base)
