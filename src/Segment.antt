-- ===== src/Segment.antt =====
-- cip_definitions.go: the logical segments of a CIP path (class, instance, attribute, element), and
-- parseClassInstancePath of server_unconnected.go.
pub mod Address
pub mod Class
pub mod Instance
pub mod Attribute
pub mod Element
pub mod RoundTrip
pub mod Length
mod Tests
use gologix.Base.{ℕ, ◌+◌, ◌*◌}
use gologix.Wire.{Reader, pure, ◌>>=◌}
use Class
use Instance

-- parseClassInstancePath
unfoldable pub parse_class_instance_path : Reader (ℕ × ℕ)
parse_class_instance_path = do cls ← Class.read; inst ← Instance.read; pure (cls, inst)
