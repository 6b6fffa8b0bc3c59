-- ===== src/Groups/Tests.antt =====
-- The example of ReadTagGroup (taggroup_readmap.go), and tests of taggroup_test.go.
use gologix.Base.{◌≡◌, refl, [], ◌∷◌, ◌++◌, some, length, get_elem?, arith}
use gologix.Base.Int.{pos}
use gologix.Base.Result.{ok}
use gologix.Wire.{Bytes}
use gologix.Text.{codes, contains, decimal, digits, starts_with}
use gologix.Ioi.Parse.{TagPart, parse_tag}
use gologix.Ioi.Names.{print_indices}
use gologix.Groups.{
  TagDef, format_name, format_from, replace_scan, placeholder, expand_array_tag, bump,
}
use gologix.Groups.Expand.{parse_tag-expand_array_tag}

formats : format_name (codes "STATS[{0},0]") (codes "1" ∷ []) ≡ codes "STATS[1,0]"
unfolding format_name format_from replace_scan placeholder decimal digits starts_with
formats = refl

abbrev stats : TagDef
stats = record { name = codes "STATS[{0},0]"; type_code = 0xC4; elements = pos 5 }

parse_tag-expand_array_tag_example :
    (length (expand_array_tag (codes "STATS" ++ print_indices (1 ∷ 0 ∷ [])) (pos 5)) ≡ 5)
    × (s : Bytes) × (t : TagPart) × (get_elem?
          (expand_array_tag (codes "STATS" ++ print_indices (1 ∷ 0 ∷ [])) (pos 5))
          4
        ≡ some s)
    × (parse_tag s ≡ ok t)
    × (t.array_order ≡ bump 4 1 (0 ∷ []))
unfolding contains
parse_tag-expand_array_tag_example =
    parse_tag-expand_array_tag (codes "STATS") 1 (0 ∷ []) 5 4 refl refl (omega arith) (omega arith)
      (omega arith) (omega arith)
