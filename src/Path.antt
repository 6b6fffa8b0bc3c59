-- ===== src/Path.antt =====
-- path.go: ParsePath. A path such as "1,0,2,192.168.2.1" becomes the bytes of a CIP route.
pub mod Route
pub mod Panics
mod Tests
use Prim.Native.Nat.{bit_or}
use gologix.Base.{ℕ, ◌%◌, List, [], ◌∷◌, ◌++◌, Bool, length, ltb, if◌then◌else◌}
use gologix.Base.Int.{ℤ, pos, negsuc}
use gologix.Base.Result.{Result, ok, err, panic, out_of_range, ◌>>=◌}
use gologix.Wire.{Bytes}
use gologix.Text.{contains, remove_all, split, atoi}

-- The last byte gets bit 4, which says that an extended address follows. With no byte yet the
-- index is -1, and Go panics.
mark_last : Bytes → Result Bytes
mark_last [] = panic
mark_last (b ∷ []) = ok (bit_or b 16 ∷ [])
mark_last (b ∷ c ∷ r) = do r' ← mark_last (c ∷ r); ok (b ∷ r')

-- A part that looks like an IP address: its length and its characters.
add_address : Bytes → Bytes → Result Bytes
add_address part byte_path = do
  marked ← mark_last byte_path
  ok (marked ++ ((length part % 256) ∷ part))

add_number : ℤ → Bytes → Result Bytes
add_number (pos val) byte_path =
    if ltb 255 val then err out_of_range else ok (byte_path ++ (val ∷ []))
add_number (negsuc n) byte_path = err out_of_range

add_part : Bytes → Bytes → Result Bytes
add_part part byte_path =
    if contains b'.' part
    then add_address part byte_path
    else do val ← atoi part; add_number val byte_path

-- The loop over the parts.
parse_parts : List Bytes → Bytes → Result Bytes
parse_parts [] byte_path = ok byte_path
parse_parts (part ∷ parts) byte_path = do
  byte_path' ← add_part part byte_path
  parse_parts parts byte_path'

strip : Bytes → Bytes
strip path = remove_all b']' (remove_all b'[' (remove_all b' ' path))

unfoldable pub parse_path : Bytes → Result Bytes
unfolding parse_parts add_part add_address add_number mark_last strip
parse_path [] = ok []
parse_path (c ∷ path) = parse_parts (split b',' (strip (c ∷ path))) []
