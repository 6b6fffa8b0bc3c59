-- ===== src/Types/Values.antt =====
-- types.go: GoVarToCIPType, readValue and getBit, over the Go values that they know. A Go number is
-- its type and its bit pattern; a float is its bits.
use Prim.Native.Nat.{◌^◌}
use gologix.Base.{
  ℕ, ◌*◌, ◌/◌, ◌%◌, List, [], ◌∷◌, Option, none, some, Bool, false, not, ltb, ◌==◌, if◌then◌else◌,
}
use gologix.Base.Int.{ℤ, pos, negsuc}
use gologix.Base.Result.{Result, ok, err, wrong_type}
use gologix.Wire.{
  Bytes, Reader, read_u8, read_u16, read_u32, read_u64, read_full, pure, ◌>>=◌, put_u8, put_u16,
  put_u32, put_u64,
}
use gologix.Types.{cip_type_struct}

-- The fixed-size numeric types of Go.
pub data NumType : Type 0 where
  uint8 int8 uint16 int16 uint32 int32 uint64 int64 float32 float64 : NumType

pub data Value : Type 0 where
  truth : Bool → Value
  num : NumType → ℕ → Value
  block : Bytes → Value

-- A variable that GoVarToCIPType looks at: what it holds or points to, or the slice it is.
pub data GoVar : Type 0 where
  bool_var : GoVar
  num_var : NumType → GoVar
  int_var : GoVar
  uint_var : GoVar
  string_var : GoVar
  num_slice : NumType → ℕ → GoVar
  int_slice : ℕ → GoVar
  uint_slice : ℕ → GoVar
  string_slice : ℕ → GoVar
  no_value : GoVar
  struct_var : GoVar
  struct_slice : ℕ → GoVar
  nil_struct_slice : GoVar
  other_var : GoVar

unfoldable pub cip_type_of : NumType → ℕ
cip_type_of uint8 = 0xD1
cip_type_of int8 = 0xC2
cip_type_of uint16 = 0xC7
cip_type_of int16 = 0xC3
cip_type_of uint32 = 0xC8
cip_type_of int32 = 0xC4
cip_type_of uint64 = 0xD4
cip_type_of int64 = 0xC5
cip_type_of float32 = 0xCA
cip_type_of float64 = 0xCB

-- Whether two types are one: no two of them have one code.
unfoldable pub same : NumType → NumType → Bool
unfolding cip_type_of
same m n = cip_type_of m == cip_type_of n

-- GoVarToCIPType: the type and the number of elements.
unfoldable pub go_var_to_cip_type : GoVar → ℕ × ℕ
unfolding cip_type_of
go_var_to_cip_type bool_var = (0xC1, 1)
go_var_to_cip_type (num_var n) = (cip_type_of n, 1)
go_var_to_cip_type int_var = (0xC4, 1)
go_var_to_cip_type uint_var = (0xC8, 1)
go_var_to_cip_type string_var = (0xFF, 1)
go_var_to_cip_type (num_slice n len) = (cip_type_of n, len)
go_var_to_cip_type (int_slice len) = (0xC4, len)
go_var_to_cip_type (uint_slice len) = (0xC8, len)
go_var_to_cip_type (string_slice len) = (0xFF, len)
go_var_to_cip_type no_value = (0, 1)
go_var_to_cip_type struct_var = (cip_type_struct, 1)
go_var_to_cip_type (struct_slice len) = (cip_type_struct, len)
go_var_to_cip_type nil_struct_slice = (cip_type_struct, 1)
go_var_to_cip_type other_var = (0, 1)

unfoldable pub width : NumType → ℕ
width uint8 = 1
width int8 = 1
width uint16 = 2
width int16 = 2
width uint32 = 4
width int32 = 4
width uint64 = 8
width int64 = 8
width float32 = 4
width float64 = 8

-- `binary.Write` of a number of the type, and `binary.Read` into one.
unfoldable pub put_num : NumType → ℕ → Bytes
unfolding width
put_num n v =
    if width n == 1
    then put_u8 v
    else if width n == 2
    then put_u16 v
    else if width n == 4
    then put_u32 v
    else put_u64 v

unfoldable pub read_num : NumType → Reader ℕ
unfolding width
read_num n b =
    if width n == 1
    then read_u8 b
    else if width n == 2
    then read_u16 b
    else if width n == 4
    then read_u32 b
    else read_u64 b

-- What the switch of readValue reads a type into: a bool, a number, or the 86 bytes of a string.
pub data Kind : Type 0 where
  boolean : Kind
  number : NumType → Kind
  text_block : Kind

unfoldable pub find {ℓ} : {A : Type ℓ} → ℕ → List (ℕ × A) → Option A
find c [] = none
find c ((d, a) ∷ table) = if c == d then some a else find c table

unfoldable pub kind_of : ℕ → Option Kind
unfolding find
kind_of t = find t (
    (0xC1, boolean)
    ∷ (0xD1, number uint8)
    ∷ (0xC2, number int8)
    ∷ (0xC3, number int16)
    ∷ (0xC4, number int32)
    ∷ (0xC5, number int64)
    ∷ (0xC6, number uint8)
    ∷ (0xC7, number uint16)
    ∷ (0xC8, number uint32)
    ∷ (0xD4, number uint64)
    ∷ (0xCA, number float32)
    ∷ (0xCB, number float64)
    ∷ (0xD2, number uint16)
    ∷ (0xD3, number uint32)
    ∷ (0xFF, text_block)
    ∷ [])

unfoldable pub read_kind : Kind → Reader Value
read_kind boolean = do b ← read_u8; pure (truth (not (b == 0)))
read_kind (number n) = do v ← read_num n; pure (num n v)
read_kind text_block = do b ← read_full 86; pure (block b)

-- readValue: a struct, an unknown type and every other code are errors.
unfoldable pub read_value : ℕ → Reader Value
unfolding read_kind
read_value t b = elim (kind_of t) [ none ↦ err wrong_type | some k ↦ read_kind k b ]

-- The cases of getBit with a mask: the Go type that the value must have.
unfoldable pub mask_type : ℕ → Option NumType
unfolding find
mask_type t = find t (
    (0xD1, uint8)
    ∷ (0xC2, uint8)
    ∷ (0xC3, int16)
    ∷ (0xC4, int32)
    ∷ (0xC5, int64)
    ∷ (0xC6, uint8)
    ∷ (0xC7, uint16)
    ∷ (0xC8, uint32)
    ∷ (0xD4, uint64)
    ∷ (0xD2, uint16)
    ∷ (0xD3, uint32)
    ∷ [])

-- `x & (1 << bitpos) != 0`, where the value has the type; a position out of range is no error.
unfoldable pub mask_bit : NumType → Value → ℤ → Result Bool
unfolding width same
mask_bit n v (negsuc k) = ok false
mask_bit n (num m x) (pos k) =
    if ltb k (8 * width n)
    then (if same m n then ok (x / 2 ^ k % 2 == 1) else err wrong_type)
    else ok false
mask_bit n v (pos k) = if ltb k (8 * width n) then err wrong_type else ok false

bool_bit : Value → ℤ → Result Bool
bool_bit (truth x) (pos k) = ok (if k == 0 then x else false)
bool_bit v (pos k) = if k == 0 then err wrong_type else ok false
bool_bit v (negsuc k) = ok false

-- getBit
unfoldable pub get_bit : ℕ → Value → ℤ → Result Bool
unfolding mask_bit bool_bit
get_bit t v bitpos =
    if t == 0xC1
    then bool_bit v bitpos
    else elim (mask_type t) [ none ↦ err wrong_type | some n ↦ mask_bit n v bitpos ]
