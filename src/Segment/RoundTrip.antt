-- ===== src/Segment/RoundTrip.antt =====
-- Encoding then decoding a segment (cip_definitions.go).
use gologix.Base.{ℕ, ◌<◌, ◌≡◌, ◌++◌, arith}
use gologix.Base.Result.{ok}
use gologix.Wire.{Bytes}
use gologix.Segment.{parse_class_instance_path}
use gologix.Segment.Class
use gologix.Segment.Instance
use gologix.Segment.Attribute

pub class_read-bytes :
    (p : ℕ) (rest : Bytes) → p < 65536 → Class.read (Class.bytes p ++ rest) ≡ ok (p, rest)
unfolding Class.read Class.bytes
class_read-bytes p rest h = ground arith

pub instance_read-bytes :
    (p : ℕ) (rest : Bytes)
    → p < 4294967296
    → Instance.read (Instance.bytes p ++ rest) ≡ ok (p, rest)
unfolding Instance.read Instance.bytes
instance_read-bytes p rest h = ground arith

pub attribute_read-bytes :
    (p : ℕ) (rest : Bytes) → p < 65536 → Attribute.read (Attribute.bytes p ++ rest) ≡ ok (p, rest)
unfolding Attribute.read Attribute.bytes
attribute_read-bytes p rest h = ground arith

-- A class below 2^16 and an instance below 2^32, written one behind the other, are both read back by
-- `parse_class_instance_path`, whatever follows them.
pub parse_class_instance_path-bytes :
    (c i : ℕ) (rest : Bytes)
    → c < 65536
    → i < 4294967296
    → parse_class_instance_path (Class.bytes c ++ (Instance.bytes i ++ rest)) ≡ ok ((c, i), rest)
unfolding parse_class_instance_path
parse_class_instance_path-bytes c i rest hc hi =
    rw (class_read-bytes c (Instance.bytes i ++ rest) hc, instance_read-bytes i rest hi)
