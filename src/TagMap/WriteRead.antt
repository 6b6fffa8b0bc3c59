-- ===== src/TagMap/WriteRead.antt =====
-- What TagRead gives after a TagWrite (server_router.go).
use gologix.Base.{
  ℕ, zero, suc, ◌+◌, ◌<◌, ◌≡◌, refl, ◌∙◌, List, [], ◌∷◌, Bool, true, false, Option, some, length,
  set, get_elem?, length-set, ltb, lt→ltb, le→ltb, arith,
}
use gologix.Base.Int.{ℤ, pos}
use gologix.Base.Result.{Result, ok, >>=-eq-ok}
use gologix.Wire.{Bytes}
use gologix.TagMap.{
  same_text, lookup, insert, Stored, scalar, slice, address, new_value, write_element, read_stored,
  read_element, found, tag_read, tag_write,
}
use gologix.TagMap.Lookup.{lookup-insert, same_text_refl}

get_elem?-set :
    {A : Type 0} (xs : List A) (i : ℕ) (v : A) → i < length xs → get_elem? (set xs i v) i ≡ some v
get_elem?-set [] i v h = absurd (omega arith)
get_elem?-set (x ∷ xs) zero v h = refl
get_elem?-set (x ∷ xs) (suc i) v h = get_elem?-set xs i v (omega arith)

module _ {V T : Type 0} (convert : Stored V T → T → Result V) (is_interface : T → Bool)
    (to_lower : Bytes → Bytes) where
  abbrev key : Bytes → Bytes
  key tag = (address convert is_interface to_lower (to_lower tag)).0

  abbrev index : Bytes → Option ℤ
  index tag = (address convert is_interface to_lower (to_lower tag)).1

  -- A successful TagWrite changes what TagRead gives for no tag with another base name, whatever the tags'
  -- indices and the quantity.
  pub tag_write-keeps :
      (tag other : Bytes) (value : Stored V T) (qty : ℤ) (m m' : List (Bytes × Stored V T))
      → tag_write convert is_interface to_lower tag value m ≡ ok m'
      → same_text (key tag) (key other) ≡ false
      → tag_read convert is_interface to_lower other qty m'
        ≡ tag_read convert is_interface to_lower other qty m
  unfolding tag_write tag_read
  tag_write-keeps tag other value qty m m' h d =
      let (val, e, f) =
        >>=-eq-ok (new_value convert is_interface to_lower (index tag) (lookup (key tag) m) value)
          (λ val. ok (insert (key tag) val m)) h in
      let same : insert (key tag) val m ≡ m' = cc in
      let kept : lookup (key other) (insert (key tag) val m) ≡ lookup (key other) m =
        lookup-insert (key other) (key tag) val m ∙ rw d refl in
      rw (← same, kept) refl

  -- Where the map has a slice under the base name of a tag with an index below its length, and the value
  -- converts to the type of its elements, TagWrite succeeds and the converted value is what TagRead of
  -- one element gives for that tag afterwards.
  pub tag_read-tag_write :
      (tag : Bytes) (i : ℕ) (t : T) (vs : List V) (value : Stored V T) (v : V)
      (m : List (Bytes × Stored V T))
      → index tag ≡ some (pos i)
      → lookup (key tag) m ≡ some (slice t vs)
      → i < length vs
      → convert value t ≡ ok v
      → (m' : List (Bytes × Stored V T)) × (tag_write convert is_interface to_lower tag value m
          ≡ ok m')
        × (tag_read convert is_interface to_lower tag (pos 1) m' ≡ ok (scalar v))
  unfolding tag_write tag_read new_value write_element read_stored read_element found
  tag_read-tag_write tag i t vs value v m a l h c =
      let below : ltb i (length vs) ≡ true = lt→ltb i (length vs) h in
      let still : ltb i (length (set vs i v)) ≡ true = rw (length-set vs i v) below in
      let enough : ltb (length (set vs i v)) (i + 1) ≡ false =
        le→ltb (length (set vs i v)) (i + 1) (omega (arith, length-set vs i v)) in
      let there : lookup (key tag) (insert (key tag) (slice t (set vs i v)) m)
          ≡ some (slice t (set vs i v)) =
        lookup-insert (key tag) (key tag) (slice t (set vs i v)) m
        ∙ rw (same_text_refl (key tag)) refl in
      (
        insert (key tag) (slice t (set vs i v)) m,
        rw (a, l, below, c) refl,
        rw (there, a, still, enough, get_elem?-set vs i v h) refl,
      )
