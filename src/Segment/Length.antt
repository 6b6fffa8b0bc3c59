-- ===== src/Segment/Length.antt =====
-- `Len` against the number of bytes that `Bytes` gives (cip_definitions.go).
use gologix.Base.{ℕ, ◌+◌, ◌%◌, ◌<◌, ◌≤◌, ◌≡◌, ◌≢◌, ◌↔◌, length, arith, All, [], ◌∷◌}
use gologix.Base.Result.{ok}
use gologix.Wire.{Bytes, IsByte}
use gologix.Wire.Bind.{bind-eq-ok}
use gologix.Segment.{parse_class_instance_path}
use gologix.Segment.Class
use gologix.Segment.Instance
use gologix.Segment.Attribute
use gologix.Segment.Element

-- `Len` of a class, an instance and an attribute is the number of bytes that `Bytes` gives, and that
-- number is even, so that a path has a whole number of 16-bit words.
pub length-segment :
    (p : ℕ)
    → (length (Class.bytes p) ≡ Class.len p)
      × (length (Instance.bytes p) ≡ Instance.len p)
      × (length (Attribute.bytes p) ≡ Attribute.len p)
      × (Class.len p % 2 ≡ 0)
      × (Instance.len p % 2 ≡ 0)
      × (Attribute.len p % 2 ≡ 0)
unfolding Class.bytes Class.len Instance.bytes Instance.len Attribute.bytes Attribute.len
length-segment p = ground arith

-- For an element index, `Len` is the number of bytes that `Bytes` gives exactly when the index is not
-- 65535: at 65535 `Len` says 6 and `Bytes` gives 4.
pub length-element_iff : (p : ℕ) → (length (Element.bytes p) ≡ Element.len p) ↔ (p ≢ 65535)
unfolding Element.bytes Element.len
length-element_iff p = (λ e h. ground arith, λ h. ground arith)

class_read_bounds :
    (b : Bytes) (v : ℕ) (rest : Bytes)
    → All IsByte b
    → Class.read b ≡ ok (v, rest)
    → (v < 65536) × (length rest + 2 ≤ length b) × All IsByte rest
unfolding Class.read
class_read_bounds [] v rest hb e = cc
class_read_bounds (s ∷ []) v rest hb e = ground arith
class_read_bounds (s ∷ a ∷ []) v rest hb e = ground arith
class_read_bounds (s ∷ a ∷ x ∷ []) v rest hb e = ground arith
class_read_bounds (s ∷ a ∷ x ∷ y ∷ b) v rest hb e = ground arith

instance_read_bounds :
    (b : Bytes) (v : ℕ) (rest : Bytes)
    → All IsByte b
    → Instance.read b ≡ ok (v, rest)
    → (v < 4294967296) × (length rest + 2 ≤ length b) × All IsByte rest
unfolding Instance.read
instance_read_bounds [] v rest hb e = cc
instance_read_bounds (s ∷ []) v rest hb e = ground arith
instance_read_bounds (s ∷ a ∷ []) v rest hb e = ground arith
instance_read_bounds (s ∷ a ∷ x ∷ []) v rest hb e = ground arith
instance_read_bounds (s ∷ a ∷ x ∷ y ∷ []) v rest hb e = ground arith
instance_read_bounds (s ∷ a ∷ x ∷ y ∷ z ∷ []) v rest hb e = ground arith
instance_read_bounds (s ∷ a ∷ x ∷ y ∷ z ∷ w ∷ b) v rest hb e = ground arith

-- What `parse_class_instance_path` reads from a list of bytes is a class below 2^16 and an instance
-- below 2^32, and it takes at least four bytes.
pub parse_class_instance_path_bounds :
    (b : Bytes) (c i : ℕ) (rest : Bytes)
    → All IsByte b
    → parse_class_instance_path b ≡ ok ((c, i), rest)
    → (c < 65536) × (i < 4294967296) × (length rest + 4 ≤ length b)
unfolding parse_class_instance_path
parse_class_instance_path_bounds b c i rest hb e =
    let (v, r, p, q) = bind-eq-ok (Class.read b) _ e in
    let (w, r', p', q') = bind-eq-ok (Instance.read r) _ q in
    ground (arith, class_read_bounds b v r, instance_read_bounds r w r')
