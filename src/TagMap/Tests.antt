-- ===== src/TagMap/Tests.antt =====
-- Tags of a server, written and read.
use gologix.Base.{ℕ, ◌≡◌, ◌↔◌, ◌≤◌, refl, List, [], ◌∷◌, Bool, false, ltb, if◌then◌else◌, arith}
use gologix.Base.Int.{pos, signed}
use gologix.Base.Result.{Result, ok, err, panic, wrong_type}
use gologix.Wire.{Bytes}
use gologix.Text.{codes, ends_with, atoi}
use gologix.TagMap.{
  same_text, lookup, insert, Stored, scalar, slice, address, parse_element_tag, cut_bracket,
  new_value, write_element, tag_read, tag_write,
}
use gologix.TagMap.WriteRead.{tag_read-tag_write}
use gologix.TagMap.Quantity.{tag_read_panics_iff}

-- Numbers below a limit convert, and slices do not. No type is an interface, and the names are in lower case.
abbrev below_limit : Stored ℕ ℕ → ℕ → Result ℕ
below_limit (scalar v) t = if ltb v t then ok v else err wrong_type
below_limit (slice u vs) t = err wrong_type

abbrev no_interface : ℕ → Bool
no_interface t = false

abbrev lower : Bytes → Bytes
lower s = s

abbrev tags : List (Bytes × Stored ℕ ℕ)
tags = (codes "speeds", slice 100 (10 ∷ 20 ∷ 30 ∷ [])) ∷ (codes "mode", scalar 7) ∷ []

abbrev tags_after : List (Bytes × Stored ℕ ℕ)
tags_after = (codes "speeds", slice 100 (10 ∷ 20 ∷ 31 ∷ [])) ∷ (codes "mode", scalar 7) ∷ []

writes :
    tag_write below_limit no_interface lower (codes "speeds[2]") (scalar 31) tags ≡ ok tags_after
unfolding tag_write new_value write_element address parse_element_tag cut_bracket lookup insert
    same_text atoi ends_with
writes = refl

tag_read-tag_write_example :
    (m' : List (Bytes × Stored ℕ ℕ)) × (tag_write below_limit no_interface lower
        (codes "speeds[2]")
        (scalar 31)
        tags
      ≡ ok m')
    × (tag_read below_limit no_interface lower (codes "speeds[2]") (pos 1) m' ≡ ok (scalar 31))
unfolding address parse_element_tag cut_bracket lookup same_text atoi ends_with
tag_read-tag_write_example =
    tag_read-tag_write below_limit no_interface lower (codes "speeds[2]") 2 100 (10 ∷ 20 ∷ 30 ∷ [])
      (scalar 31) 31 tags refl refl (omega arith) refl

tag_read_panics_iff_example :
    (tag_read below_limit no_interface lower (codes "speeds") (signed 16 40000) tags ≡ panic)
    ↔ (32768 ≤ 40000)
unfolding address parse_element_tag lookup same_text ends_with
tag_read_panics_iff_example =
    tag_read_panics_iff below_limit no_interface lower (codes "speeds") 40000 100
      (10 ∷ 20 ∷ 30 ∷ []) tags (omega arith) refl tt
