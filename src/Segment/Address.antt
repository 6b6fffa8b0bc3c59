-- ===== src/Segment/Address.antt =====
-- cip_definitions.go: CIPAddress, a node address of one byte.
use gologix.Base.{ℕ}
use gologix.Wire.{Bytes, put_u8}

unfoldable pub bytes : ℕ → Bytes
bytes p = put_u8 p

unfoldable pub len : ℕ → ℕ
len p = 0
