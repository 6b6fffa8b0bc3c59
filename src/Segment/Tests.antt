-- ===== src/Segment/Tests.antt =====
-- Runs of the segments, and the theorems at concrete inputs.
use gologix.Base.{◌≡◌, refl, [], ◌∷◌, ◌++◌}
use gologix.Base.Result.{ok, err, bad_segment}
use gologix.Wire.{Bytes}
use gologix.Segment.{parse_class_instance_path}
use gologix.Segment.Class
use gologix.Segment.Instance

-- Class 0x6B, instance 300.
abbrev symbol_300 : Bytes
symbol_300 = 0x20 ∷ 0x6B ∷ 0x25 ∷ 0 ∷ 44 ∷ 1 ∷ []

symbol_300_lem : Class.bytes 0x6B ++ Instance.bytes 300 ≡ symbol_300
unfolding Class.bytes Instance.bytes
symbol_300_lem = refl

parse_symbol_300 : parse_class_instance_path symbol_300 ≡ ok ((0x6B, 300), [])
unfolding parse_class_instance_path Class.read Instance.read
parse_symbol_300 = refl

parse_wrong_segment : parse_class_instance_path (0x28 ∷ 1 ∷ []) ≡ err bad_segment
unfolding parse_class_instance_path Class.read
parse_wrong_segment = refl
