-- ===== src/TagMap.antt =====
-- server_router.go: PathRouter and MapTagProvider, the tags of a server as a map from names to values. A
-- Go slice is the list of its elements: what a caller does later to a slice that it was given is not modelled.
pub mod Lookup
pub mod WriteRead
pub mod Quantity
mod Tests
use gologix.Base.{
  ℕ, ◌+◌, ◌-◌, ◌<◌, List, [], ◌∷◌, ◌++◌, Bool, true, false, not, ◌&&◌, Option, none, some, length,
  take, drop, get_elem?, set, ltb, leb, ◌==◌, if◌then◌else◌,
}
use gologix.Base.Int.{ℤ, pos, negsuc}
use gologix.Base.Result.{
  Result, ok, err, panic, not_found, wrong_type, out_of_range, not_implemented, ◌>>=◌,
}
use gologix.Wire.{Bytes}
use gologix.Text.{ends_with, contains, atoi}

-- Equality of strings.
unfoldable pub same_text : Bytes → Bytes → Bool
same_text [] [] = true
same_text [] (y ∷ t) = false
same_text (x ∷ s) [] = false
same_text (x ∷ s) (y ∷ t) = if x == y then same_text s t else false

-- A Go map with strings for keys.
unfoldable pub lookup {ℓ} : {A : Type ℓ} → Bytes → List (Bytes × A) → Option A
lookup k [] = none
lookup k ((j, a) ∷ m) = let later = lookup k m in if same_text j k then some a else later

unfoldable pub insert {ℓ} : {A : Type ℓ} → Bytes → A → List (Bytes × A) → List (Bytes × A)
insert k a [] = (k, a) ∷ []
insert k a ((j, b) ∷ m) =
    let later = insert k a m in if same_text j k then (j, a) ∷ m else (j, b) ∷ later

-- PathRouter.Handle and Resolve, for endpoints of any kind.
unfoldable pub handle {ℓ} : {E : Type ℓ} → Bytes → E → List (Bytes × E) → List (Bytes × E)
handle path p router = insert path p router

unfoldable pub resolve {ℓ} : {E : Type ℓ} → Bytes → List (Bytes × E) → Result E
resolve path router = elim (lookup path router) [ none ↦ err not_found | some tp ↦ ok tp ]

-- `tag[:strings.LastIndex(tag, "[")]`, and what stands between the bracket and the last character.
unfoldable pub cut_bracket : Bytes → Option (Bytes × Bytes)
cut_bracket [] = none
cut_bracket (c ∷ s) = elim (cut_bracket s) [
  | some (base, inner) ↦ some (c ∷ base, inner)
  | none ↦ if c == b'[' then some ([], take (length s - 1) s) else none
]

-- parseElementTag: the base and the index, where the tag has an element suffix.
unfoldable pub parse_element_tag : Bytes → Option (Bytes × ℤ)
unfolding cut_bracket
parse_element_tag tag =
    let cut = cut_bracket tag in
    if ends_with b']' tag
    then elim cut [
      | none ↦ none
      | some (base, inner) ↦ elim (atoi inner) [
        | ok n ↦ some (base, n)
        | err e ↦ none
        | panic ↦ none
      ]
    ]
    else none

-- A value in the map: a scalar, or a slice with the type of its elements.
pub data Stored (V T : Type 0) : Type 0 where
  scalar : V → Stored V T
  slice : T → List V → Stored V T

-- `convert` is convertToElement, which asks reflect, and `is_interface` tells `any` among the element types.
module _ {V T : Type 0} (convert : Stored V T → T → Result V) (is_interface : T → Bool)
    (to_lower : Bytes → Bytes) where
  -- The values of `Slice(i, end)`, which panics where `end` is less than `i`, from `qty` elements on.
  unfoldable pub read_element : T → List V → ℤ → ℤ → Result (Stored V T)
  read_element t vs (negsuc i) qty = err out_of_range
  read_element t vs (pos i) (negsuc q) = if ltb i (length vs) then panic else err out_of_range
  read_element t vs (pos i) (pos q) =
      if ltb i (length vs)
      then (if ltb (length vs) (i + q)
          then err out_of_range
          else if q == 1
          then elim (get_elem? vs i) [ some v ↦ ok (scalar v) | none ↦ panic ]
          else ok (slice t (take q (drop i vs))))
      else err out_of_range

  unfoldable pub read_slice : T → List V → ℤ → Result (Stored V T)
  read_slice t vs (pos q) = if leb q (length vs) then ok (slice t (take q vs)) else err out_of_range
  read_slice t vs (negsuc q) = panic

  -- TagRead, behind the lookup.
  unfoldable pub read_stored : Stored V T → Option ℤ → ℤ → Result (Stored V T)
  unfolding read_element read_slice
  read_stored (scalar v) (some i) qty = err wrong_type
  read_stored (slice t vs) (some i) qty = read_element t vs i qty
  read_stored (slice t vs) none qty = read_slice t vs qty
  read_stored (scalar v) none qty = ok (scalar v)

  -- The key and the index of a tag.
  unfoldable pub address : Bytes → Bytes × Option ℤ
  unfolding parse_element_tag
  address tag = elim (parse_element_tag tag) [
    | none ↦ (tag, none)
    | some (base, i) ↦ (base, some i)
  ]

  found : Option (Stored V T) → Result (Stored V T)
  found none = err not_found
  found (some val) = ok val

  -- MapTagProvider.TagRead
  unfoldable pub tag_read : Bytes → ℤ → List (Bytes × Stored V T) → Result (Stored V T)
  unfolding address read_stored found
  tag_read tag qty m = do
    val ← found (lookup (address (to_lower tag)).0 m)
    read_stored val (address (to_lower tag)).1 qty

  -- A write of an element, of what the map has under the base name.
  unfoldable pub write_element : Stored V T → ℤ → Stored V T → Result (Stored V T)
  write_element (scalar v) i value = err wrong_type
  write_element (slice t vs) (negsuc i) value = err out_of_range
  write_element (slice t vs) (pos i) value =
      if ltb i (length vs)
      then (do v ← convert value t; ok (slice t (set vs i v)))
      else err out_of_range

  unfoldable pub convert_all : T → List V → Result (List V)
  convert_all t [] = ok []
  convert_all t (v ∷ vs) = do w ← convert (scalar v) t; ws ← convert_all t vs; ok (w ∷ ws)

  -- A write of a whole tag over what the map has: a slice of `any` takes the type of the slice that is there.
  unfoldable pub write_whole : Option (Stored V T) → Stored V T → Result (Stored V T)
  unfolding convert_all
  write_whole (some (slice t old)) (slice u vs) =
      if is_interface u then (do ws ← convert_all t vs; ok (slice t ws)) else ok (slice u vs)
  write_whole (some (scalar old)) value = ok value
  write_whole (some (slice t old)) (scalar v) = ok (scalar v)
  write_whole none value = ok value

  -- What TagWrite puts into the map, by the index of the tag and what the map has.
  unfoldable pub new_value : Option ℤ → Option (Stored V T) → Stored V T → Result (Stored V T)
  unfolding write_element write_whole
  new_value (some i) none value = err not_found
  new_value (some i) (some old) value = write_element old i value
  new_value none old value = write_whole old value

  -- MapTagProvider.TagWrite
  unfoldable pub tag_write :
      Bytes → Stored V T → List (Bytes × Stored V T) → Result (List (Bytes × Stored V T))
  unfolding address new_value
  tag_write tag value m = do
    val ← new_value (address (to_lower tag)).1 (lookup (address (to_lower tag)).0 m) value
    ok (insert (address (to_lower tag)).0 val m)
