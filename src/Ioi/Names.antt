-- ===== src/Ioi/Names.antt =====
-- Tag names made of parts, each a name with indices, and the segments they stand for.
use gologix.Base.{ℕ, ◌<◌, ◌≡◌, ◌≢◌, List, [], ◌∷◌, ◌++◌, Bool, false, All, map, length}
use gologix.Base.Int.{ℤ}
use gologix.Base.Result.{Result, ok, err, panic}
use gologix.Wire.{Bytes}
use gologix.Text.{atoi, join, decimal}
use gologix.Text.Split.{Lacks}
use gologix.Ioi.{symbolic, index_parts, at_most_31}

pub record Part : Type 0 where
  pub name : Bytes
  pub indices : List ℕ

unfoldable pub print_indices : List ℕ → Bytes
print_indices [] = []
print_indices (i ∷ is) = b'[' ∷ (join b',' (map decimal (i ∷ is)) ++ (b']' ∷ []))

unfoldable pub print_part : Part → Bytes
unfolding print_indices
print_part p = p.name ++ print_indices p.indices

-- Whether a part is read as the number of a bit.
abbrev pub is_bit_number : Result ℤ → Bool
is_bit_number (ok bit) = at_most_31 bit
is_bit_number (err e) = false
is_bit_number panic = false

abbrev pub IsIndex : ℕ → Type 0
IsIndex i = i < 65536

-- A name of 1 to 255 characters with no dot and no bracket, that is no bit number, and 16-bit indices.
pub record IsPart (p : Part) : Type 0 where
  pub named : p.name ≢ []
  pub short : length p.name < 256
  pub no_dot : Lacks b'.' p.name
  pub no_open : Lacks b'[' p.name
  pub no_close : Lacks b']' p.name
  pub not_bit : is_bit_number (atoi p.name) ≡ false
  pub indices_fit : All IsIndex p.indices

-- The segments of a part: its name, then its indices.
unfoldable pub part_bytes : Part → Bytes
part_bytes p = symbolic p.name ++ index_parts p.indices

unfoldable pub tag_bytes : List Part → Bytes
tag_bytes [] = []
tag_bytes (p ∷ ps) = part_bytes p ++ tag_bytes ps

-- The tag name: the parts, joined by dots.
unfoldable pub print_tag : List Part → Bytes
print_tag ps = join b'.' (map print_part ps)
