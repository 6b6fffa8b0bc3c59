-- ===== src/Ioi/Tests.antt =====
-- Runs of the tag name encoder and decoder, and the theorems at concrete inputs.
use gologix.Base.{◌≡◌, ◌↔◌, refl, [], ◌∷◌, ◌++◌, false, arith}
use gologix.Base.Int.{pos}
use gologix.Base.Result.{ok, panic}
use gologix.Wire.{Bytes}
use gologix.Text.{codes, contains, atoi, split, ends_with, take_until}
use gologix.Ioi.{TagIoi, new_symbolic_ioi, append_ioi_part, marshal_ioi_part, index_parts}
use gologix.Ioi.Parse.{parse_tag, bit_access_text, array_access_text, parse_order, index_numbers}
use gologix.Ioi.Decode.{get_tag_from_path}
use gologix.Ioi.Names.{Part, IsPart, print_tag}
use gologix.Ioi.RoundTrip.{get_tag_from_path-new_symbolic_ioi}
use gologix.Ioi.Panics.{StartsWithIndex, get_tag_from_path_panics_iff}

-- "profile[0,1,257]" of 1756-PM020H-EN-P, as in ioi_test.go.
profile_run :
    new_symbolic_ioi (codes "profile[0,1,257]") 0xC4
    ≡ ok (record {
      path = codes "profile[0,1,257]";
      type_code = 0xC4;
      bit_access = false;
      bit_position = pos 0;
      buffer =
          0x91 ∷ 0x07 ∷ 0x70 ∷ 0x72 ∷ 0x6f ∷ 0x66 ∷ 0x69 ∷ 0x6c ∷ 0x65 ∷ 0x00 ∷ 0x28 ∷ 0x00 ∷ 0x28
          ∷ 0x01 ∷ 0x29 ∷ 0x00 ∷ 0x01 ∷ 0x01 ∷ [];
    })
unfolding new_symbolic_ioi append_ioi_part marshal_ioi_part parse_tag bit_access_text
    array_access_text parse_order index_numbers index_parts contains split ends_with take_until atoi
profile_run = refl

abbrev profile : Part
profile = record { name = codes "profile"; indices = 0 ∷ 257 ∷ [] }

abbrev rate : Part
rate = record { name = codes "rate"; indices = [] }

profile-IsPart : IsPart profile
profile-IsPart = record {
  named = λ e. cc;
  short = omega arith;
  no_dot = unfold contains in refl;
  no_open = unfold contains in refl;
  no_close = unfold contains in refl;
  not_bit = unfold atoi in refl;
  indices_fit = omega arith;
}

rate-IsPart : IsPart rate
rate-IsPart = record {
  named = λ e. cc;
  short = omega arith;
  no_dot = unfold contains in refl;
  no_open = unfold contains in refl;
  no_close = unfold contains in refl;
  not_bit = unfold atoi in refl;
  indices_fit = tt;
}

get_tag_from_path-new_symbolic_ioi_example :
    (ioi : TagIoi) × (new_symbolic_ioi (print_tag (profile ∷ rate ∷ [])) 0xC4 ≡ ok ioi)
    × (get_tag_from_path (ioi.buffer ++ (1 ∷ 0 ∷ []))
        ≡ ok (print_tag (profile ∷ rate ∷ []), 1 ∷ 0 ∷ []))
get_tag_from_path-new_symbolic_ioi_example =
    get_tag_from_path-new_symbolic_ioi profile (rate ∷ []) 0xC4 (1 ∷ 0 ∷ [])
      (profile-IsPart, (rate-IsPart, tt)) refl refl

-- A name without characters, and an index behind it.
abbrev index_first : Bytes
index_first = 0x91 ∷ 0 ∷ 0x28 ∷ 3 ∷ []

get_tag_from_path_panics_iff_example :
    (get_tag_from_path index_first ≡ panic) ↔ StartsWithIndex index_first
get_tag_from_path_panics_iff_example = get_tag_from_path_panics_iff index_first

index_first_panics : get_tag_from_path index_first ≡ panic
index_first_panics =
    (get_tag_from_path_panics_iff index_first).1
      (StartsWithIndex.no_name (StartsWithIndex.short 3 []))
