-- ===== src/Ioi/Decode.antt =====
-- ioi.go: getAsciiTagPart and getTagFromPath, which turn a path back into a tag name.
pub mod Fuel
use gologix.Base.{
  ℕ, zero, suc, ◌%◌, List, [], ◌∷◌, ◌++◌, Bool, true, false, length, ◌==◌, if◌then◌else◌,
}
use gologix.Base.Result.{Result, ok, err, panic, eof}
use gologix.Wire.{Bytes, Reader, read_u8, read_u16, read_full, pure, fail, ◌>>=◌, ◌>>◌}
use gologix.Text.{decimal, ends_with}

-- getAsciiTagPart. The items are read through DeSerialize; what an error leaves is not used.
unfoldable pub get_ascii_tag_part : Reader Bytes
get_ascii_tag_part = do
  tag_len ← read_u8
  b ← read_full tag_len
  if tag_len % 2 == 1 then (do read_u8; pure b) else pure b

unfoldable pub init : Bytes → Bytes
init [] = []
init (x ∷ []) = []
init (x ∷ y ∷ s) = x ∷ init (y ∷ s)

-- `tag_str[len(tag_str)-1]` panics on the empty text. Further indices join the bracket.
unfoldable pub add_index : Bytes → ℕ → Reader Bytes
add_index [] index = λ rest. panic
add_index (c ∷ tag) index =
    if ends_with b']' (c ∷ tag)
    then pure (init (c ∷ tag) ++ (b',' ∷ (decimal index ++ (b']' ∷ []))))
    else pure ((c ∷ tag) ++ (b'[' ∷ (decimal index ++ (b']' ∷ []))))

unfoldable pub add_name : Bytes → Bytes → Bytes
add_name [] s = s
add_name (c ∷ tag) s = (c ∷ tag) ++ (b'.' ∷ s)

-- The segment behind its type byte; the type is 0x28, 0x29 or 0x91.
unfoldable pub byte_index : Bytes → Reader Bytes
byte_index tag_str = do index ← read_u8; add_index tag_str index

unfoldable pub word_index : Bytes → Reader Bytes
word_index tag_str = do pad ← read_u8; index ← read_u16; add_index tag_str index

unfoldable pub ascii_part : Bytes → Reader Bytes
ascii_part tag_str = do s ← get_ascii_tag_part; pure (add_name tag_str s)

-- One round of the loop: done, with what is left, or one more segment in the name.
pub data Round : Type 0 where
  done : Bytes → Round
  more : Bytes → Bytes → Round

unfoldable pub continued : Result (Bytes × Bytes) → Result Round
continued (ok (tag, rest)) = ok (more tag rest)
continued (err e) = err e
continued panic = panic

-- At the end of the data the name is complete; any other byte is put back.
unfoldable pub round : Bytes → Bytes → Result Round
unfolding continued
round tag_str [] = ok (done [])
round tag_str (t ∷ rest) =
    if t == 0x28
    then continued (byte_index tag_str rest)
    else if t == 0x29
    then continued (word_index tag_str rest)
    else if t == 0x91
    then continued (ascii_part tag_str rest)
    else ok (done (t ∷ rest))

-- The loop, with fuel for its rounds: each takes a byte at least.
unfoldable pub path_loop : ℕ → Bytes → Bytes → Result (Bytes × Bytes)
path_loop zero tag_str rest = ok (tag_str, rest)
path_loop (suc fuel) tag_str rest = elim (round tag_str rest) [
  | ok (done left) ↦ ok (tag_str, left)
  | ok (more tag left) ↦ path_loop fuel tag left
  | err e ↦ err e
  | panic ↦ panic
]

-- getTagFromPath
unfoldable pub get_tag_from_path : Reader Bytes
unfolding path_loop
get_tag_from_path b = path_loop (length b) [] b
