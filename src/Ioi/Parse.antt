-- ===== src/Ioi/Parse.antt =====
-- ioi.go: tagPartDescriptor.Parse. The two regular expressions are `\.\d+$` and
-- `\[([\d]|[,]|[\s])*\]$`; each can match in one place only.
pub mod Names
use gologix.Base.{
  ℕ, List, [], ◌∷◌, Bool, true, false, ◌&&◌, ◌||◌, Option, none, some, ◌==◌, if◌then◌else◌,
}
use gologix.Base.Int.{ℤ, pos, negsuc}
use gologix.Base.Result.{Result, ok, err, bad_number, ◌>>=◌}
use gologix.Wire.{Bytes}
use gologix.Text.{atoi, contains, split, remove_text, all_digits, is_digit}

-- tagPartDescriptor; a nil Array_Order is the empty list.
pub record TagPart : Type 0 where
  pub full_path : Bytes
  pub base_path : Bytes
  pub array_order : List ℕ
  pub bit_number : ℤ
  pub bit_access : Bool

some_digits : Bytes → Bool
unfolding all_digits
some_digits [] = false
some_digits (d ∷ s) = all_digits (d ∷ s)

-- The digits behind the dot that `bit_access_regex` finds.
unfoldable pub bit_access_text : Bytes → Option Bytes
unfolding some_digits
bit_access_text [] = none
bit_access_text (c ∷ s) = if c == b'.' && some_digits s then some s else bit_access_text s

-- A digit, a comma, or what `\s` stands for: tab, newline, form feed, return, space.
abbrev pub is_index_char : ℕ → Bool
is_index_char c = is_digit c || c == b',' || c == 9 || c == 10 || c == 12 || c == 13 || c == b' '

abbrev cons_some : ℕ → Option Bytes → Option Bytes
cons_some c none = none
cons_some c (some s) = some (c ∷ s)

-- What stands before a final bracket, if that is index characters alone.
unfoldable pub index_body : Bytes → Option Bytes
index_body [] = none
index_body (c ∷ []) = if c == b']' then some [] else none
index_body (c ∷ d ∷ s) = if is_index_char c then cons_some c (index_body (d ∷ s)) else none

-- The text between the brackets that `array_access_regex` finds.
unfoldable pub array_access_text : Bytes → Option Bytes
unfolding index_body
array_access_text [] = none
array_access_text (c ∷ s) = elim (if c == b'[' then index_body s else none) [
  | some body ↦ some body
  | none ↦ array_access_text s
]

-- Atoi of an index. The regular expression lets no sign through.
unfoldable pub index_number : Result ℤ → Result ℕ
index_number (ok (pos n)) = ok n
index_number (ok (negsuc n)) = err bad_number
index_number (err e) = err e
index_number Result.panic = Result.panic

unfoldable pub index_numbers : List Bytes → Result (List ℕ)
unfolding index_number
index_numbers [] = ok []
index_numbers (part ∷ parts) = do
  n ← index_number (atoi part)
  ns ← index_numbers parts
  ok (n ∷ ns)

unfoldable pub parse_order : Bytes → Result (List ℕ)
parse_order body =
    if contains b',' body then index_numbers (split b',' body) else index_numbers (body ∷ [])

unfoldable pub with_bit : Option Bytes → TagPart → Result TagPart
with_bit none tag = ok tag
with_bit (some text) tag = do
  n ← atoi text
  ok (record tag { base_path = remove_text text tag.base_path; bit_access = true; bit_number = n })

unfoldable pub with_array : Option Bytes → TagPart → Result TagPart
with_array none tag = ok tag
with_array (some text) tag = do
  order ← parse_order text
  ok (record tag { base_path = remove_text text tag.base_path; array_order = order })

-- tagPartDescriptor.Parse, and parse_tag_name
unfoldable pub parse_tag : Bytes → Result TagPart
unfolding with_bit with_array
parse_tag tagpath = do
  tag ← with_bit (bit_access_text tagpath) (record {
    full_path = tagpath;
    base_path = tagpath;
    array_order = [];
    bit_number = pos 0;
    bit_access = false;
  })
  with_array (array_access_text tagpath) tag
