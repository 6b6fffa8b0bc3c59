-- ===== src/Pack/Unpack.antt =====
-- pack.go: Unpack from a bytes.Buffer. The Go value that it fills says what is read; what it returns is
-- the filled value and the number of bytes that it counts.
use Prim.Native.Nat.{◌^◌}
use gologix.Base.{
  ℕ, ◌+◌, ◌-◌, ◌*◌, ◌/◌, ◌%◌, List, [], ◌∷◌, Bool, not, none, some, length, take, drop, ltb, leb,
  ◌==◌, if◌then◌else◌,
}
use gologix.Base.Result.{
  Result, ok, err, panic, eof, wrong_type, not_implemented, out_of_data, out_of_range,
}
use gologix.Wire.{Bytes, Reader, read_u8, read_u32, pure, fail, ◌>>=◌}
use gologix.Types.Values.{NumType, width, read_num}
use gologix.Pack.{
  Tag, Go, bool, bools, num, nums, str, strs, struct, structs, Fields, end, field, Structs, no_more,
  more, align,
}

-- `r.Read` of `k` bytes: the end of the data is an error, too few bytes are not.
unfoldable pub read_some : ℕ → Reader Bytes
read_some k b =
    if k == 0 then ok ([], b) else if length b == 0 then err eof else ok (take k b, drop k b)

-- The variables of Unpack. `bitpack` is the byte whose bits are being read.
pub record UnpackState : Type 0 where
  pub n : ℕ
  pub bitpos : ℕ
  pub bitpack : ℕ
  pub last_a : ℕ

abbrev pub start : UnpackState
start = record { n = 0; bitpos = 0; bitpack = 0; last_a = 1 }

-- `k` bytes are passed over and counted.
unfoldable pub skip : ℕ → UnpackState → Reader UnpackState
skip k u = do b ← read_some k; pure (record u { n = u.n + k })

unfoldable pub skip_to_multiple : ℕ → UnpackState → Reader UnpackState
unfolding skip
skip_to_multiple a u b = let rem = a - u.n % a in if ltb rem a then skip rem u b else ok (u, b)

unfoldable pub enter : Tag → ℕ → UnpackState → Reader UnpackState
unfolding skip skip_to_multiple
enter tag a u b = elim tag.byte_index [
  | some i ↦
      (if ltb u.n i
        then skip (i - u.n) (record u { last_a = a }) b
        else ok (record u { last_a = a }, b))
  | none ↦
      (if ltb u.last_a a
        then skip_to_multiple a (record u { last_a = a }) b
        else ok (record u { last_a = a }, b))
]

unfoldable pub settle : Tag → ℕ → UnpackState → Reader UnpackState
unfolding skip_to_multiple
settle tag a u b = elim tag.byte_index [ none ↦ skip_to_multiple a u b | some i ↦ ok (u, b) ]

-- A byte is read for the first of eight bits.
unfoldable pub fill : UnpackState → Reader UnpackState
fill u b =
    if u.bitpos == 0
    then (do v ← read_u8; pure (record u { bitpack = v; n = u.n + 1 })) b
    else ok (u, b)

unfoldable pub next_bit : UnpackState → UnpackState
next_bit u =
    if leb 8 (u.bitpos + 1) then record u { bitpos = 0 } else record u { bitpos = u.bitpos + 1 }

unfoldable pub read_bit : UnpackState → Reader (Bool × UnpackState)
unfolding fill next_bit
read_bit u = do u' ← fill u; pure (not (u'.bitpack / 2 ^ u'.bitpos % 2 == 0), next_bit u')

unfoldable pub read_bits : List Bool → UnpackState → Reader (List Bool × UnpackState)
unfolding read_bit
read_bits [] u = pure ([], u)
read_bits (old ∷ olds) u = do x ← read_bit u; rest ← read_bits olds x.1; pure (x.0 ∷ rest.0, rest.1)

-- `binary.Read` of bools and of numbers. Where bytes are missing the error is that of the element without them.
unfoldable pub read_bools : List Bool → Reader (List Bool)
read_bools [] = pure []
read_bools (old ∷ olds) = do v ← read_u8; rest ← read_bools olds; pure (not (v == 0) ∷ rest)

unfoldable pub read_nums : NumType → List ℕ → Reader (List ℕ)
read_nums n [] = pure []
read_nums n (old ∷ olds) = do v ← read_num n; rest ← read_nums n olds; pure (v ∷ rest)

-- A string: 86 bytes, the first four of them its length, which is 82 at most.
unfoldable pub text_from : Result (ℕ × Bytes) → Bytes → Result (Bytes × Bytes)
text_from (ok (len, chars)) rest =
    if ltb 82 len then err out_of_range else ok (take len chars, rest)
text_from (err e) rest = err e
text_from panic rest = panic

unfoldable pub read_text : Reader Bytes
unfolding text_from
read_text b =
    if ltb (length b) 86 then err out_of_data else text_from (read_u32 (take 86 b)) (drop 86 b)

unfoldable pub read_texts : List Bytes → Reader (List Bytes)
unfolding read_text
read_texts [] = pure []
read_texts (old ∷ olds) = do s ← read_text; rest ← read_texts olds; pure (s ∷ rest)

abbrev pub no_bits : UnpackState → UnpackState
no_bits u = record u { bitpos = 0 }

abbrev pub count : ℕ → UnpackState → UnpackState
count k u = record u { n = u.n + k }

-- A field that is read by `m` into `k` bytes, behind its alignment.
unfoldable pub plain :
    {A : Type 0} → Tag → ℕ → ℕ → (A → Go) → Reader A → UnpackState → Reader (Go × UnpackState)
unfolding settle
plain tag a k f m u = do u' ← settle tag a (no_bits u); v ← m; pure (f v, count k u')

unfoldable mutual
  -- The loop of Unpack over the fields of the value that is filled.
  pub unpack_fields : Fields → UnpackState → Reader (Fields × UnpackState)
  unpack_fields end u = pure (end, u)
  unpack_fields (field tag v fs) u = do
    u' ← enter tag (align v) u
    x ← unpack_go tag v u'
    rest ← unpack_fields fs x.1
    pure (field tag x.0 rest.0, rest.1)

  pub unpack_go : Tag → Go → UnpackState → Reader (Go × UnpackState)
  unpack_go tag (bool old) u =
      if tag.no_pack
      then plain tag 1 1 (λ v. bool (not (v == 0))) read_u8 u
      else (do x ← read_bit u; pure (bool x.0, x.1))
  unpack_go tag (bools olds) u =
      if tag.no_pack
      then plain tag 1 (length olds) bools (read_bools olds) u
      else (do x ← read_bits olds u; pure (bools x.0, x.1))
  unpack_go tag (num n old) u = plain tag (width n) (width n) (num n) (read_num n) u
  unpack_go tag (nums n olds) u =
      plain tag (width n) (width n * length olds) (nums n) (read_nums n olds) u
  unpack_go tag (str old) u =
      if tag.no_pack
      then fail wrong_type
      else (do s ← read_text; pure (str s, no_bits (count 86 u)))
  unpack_go tag (strs olds) u =
      if tag.no_pack
      then fail wrong_type
      else (do ss ← read_texts olds; pure (strs ss, no_bits (count (86 * length olds) u)))
  unpack_go tag (struct fs) u = do
    u' ← settle tag (align (struct fs)) (no_bits u)
    x ← unpack_fields fs start
    u'' ← settle tag (align (struct fs)) (count x.1.n u')
    pure (struct x.0, u'')
  unpack_go tag (structs fs rest) u = if tag.no_pack then fail not_implemented else (do
    x ← unpack_fields fs start
    xs ← unpack_structs rest
    pure (structs x.0 xs.0, no_bits (count (x.1.n + xs.1) u)))

  -- The elements of an array of structures, and their bytes.
  pub unpack_structs : Structs → Reader (Structs × ℕ)
  unpack_structs no_more = pure (no_more, 0)
  unpack_structs (more fs rest) = do
    x ← unpack_fields fs start
    xs ← unpack_structs rest
    pure (more x.0 xs.0, x.1.n + xs.1)

-- Unpack
unfoldable pub unpack : Fields → Reader (Fields × ℕ)
unpack fs = do x ← unpack_fields fs start; pure (x.0, x.1.n)
