-- ===== src/Builder/Tests.antt =====
-- Runs of PathBuilder, and the theorems at concrete inputs.
use gologix.Base.{◌≡◌, refl, [], ◌∷◌, ◌++◌, arith, none, some}
use gologix.Base.Result.{ok, err, out_of_range}
use gologix.Text.{codes, contains, atoi, split, remove_all}
use gologix.Path.{parse_path}
use gologix.Segment.{parse_class_instance_path}
use gologix.Ioi.{TagIoi, new_symbolic_ioi}
use gologix.Ioi.Names.{Part, IsPart, print_tag}
use gologix.Builder.{
  PathBuilder, on_class, on_instance, on_slot, on_path, on_port, build, new_path_builder,
}
use gologix.Builder.Segments.{
  segment, segments, build-segments, build_first_error, parse_class_instance_path-build,
}
use gologix.Builder.Symbols.{tag_calls, build-tag_calls}

build-segments_example :
    build (on_port 1 ∷ on_slot 0 ∷ []) (record { b = 7 ∷ []; failed = none })
    ≡ ok (record { b = 7 ∷ 1 ∷ 0 ∷ []; failed = none })
build-segments_example =
    build-segments (on_port 1 ∷ on_slot 0 ∷ []) (7 ∷ []) (1 ∷ 0 ∷ [])
      (unfold segments segment in refl)

too_large : segment (on_path (codes "1,256")) ≡ err out_of_range
unfolding segment parse_path contains split remove_all atoi
too_large = refl

build_first_error_example :
    build
      (on_port 1 ∷ on_path (codes "1,256") ∷ on_path (codes "1.2") ∷ [])
      (record { b = []; failed = none })
    ≡ ok (record { b = 1 ∷ []; failed = some out_of_range })
build_first_error_example =
    build_first_error (on_port 1 ∷ []) (on_path (codes "1,256")) (on_path (codes "1.2") ∷ []) []
      (1 ∷ []) out_of_range (unfold segments segment in refl) too_large

parse_class_instance_path-build_example :
    (pb : PathBuilder) × (build (on_class 0x6B ∷ on_instance 300 ∷ []) new_path_builder ≡ ok pb)
    × (parse_class_instance_path (pb.b ++ (9 ∷ [])) ≡ ok ((0x6B, 300), 9 ∷ []))
parse_class_instance_path-build_example =
    parse_class_instance_path-build 0x6B 300 (9 ∷ []) (omega arith) (omega arith)

abbrev motor : Part
motor = record { name = codes "motor"; indices = 3 ∷ 1000 ∷ [] }

motor-IsPart : IsPart motor
motor-IsPart = record {
  named = λ e. cc;
  short = omega arith;
  no_dot = unfold contains in refl;
  no_open = unfold contains in refl;
  no_close = unfold contains in refl;
  not_bit = unfold atoi in refl;
  indices_fit = omega arith;
}

build-tag_calls_example :
    (ioi : TagIoi) × (new_symbolic_ioi (print_tag (motor ∷ [])) 0xC4 ≡ ok ioi)
    × (build (tag_calls (motor ∷ [])) new_path_builder
        ≡ ok (record { b = ioi.buffer; failed = none }))
build-tag_calls_example = build-tag_calls motor [] 0xC4 (motor-IsPart, tt) refl
