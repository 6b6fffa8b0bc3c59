-- ===== src/Members/Template.antt =====
-- The type words of tags and members: listmembers.go, UDTMemberDescriptor; listalltags.go, TagInfo.
use gologix.Base.{
  ℕ, ◌+◌, ◌*◌, ◌/◌, ◌%◌, ◌<◌, ◌≤◌, ◌≡◌, List, [], ◌∷◌, Bool, false, not, ltb, leb, ◌||◌, ◌&&◌, ◌==◌,
  if◌then◌else◌, arith, All,
}
use native.Mathlib.Nat.{le_trans}
use gologix.Types.{size}

-- msgMemberInfo: `type_word` is the 16-bit type.
pub record MemberInfo : Type 0 where
  pub info : ℕ
  pub type_word : ℕ
  pub offset : ℕ

-- `m.Type & 0x00FF`
unfoldable pub cip_type : MemberInfo → ℕ
cip_type m = m.type_word % 256

-- `val & (1 << n) != 0` for the powers 2^12 and 2^15.
abbrev pub has_bit : ℕ → ℕ → Bool
has_bit power val = val / power % 2 == 1

-- Template_ID: of a word with bit 15 and without bit 12, the low 12 bits; of any other word, 0.
unfoldable pub template_id : ℕ → ℕ
template_id val = if not (has_bit 32768 val) || has_bit 4096 val then 0 else val % 4096

-- TagInfo
pub record TagInfo : Type 0 where
  pub tag_type : ℕ
  pub type_info : ℕ
  pub dimension1 : ℕ
  pub dimension2 : ℕ
  pub dimension3 : ℕ

abbrev pub word : TagInfo → ℕ
word f = f.tag_type + 256 * f.type_info

unfoldable pub pre_defined : TagInfo → Bool
pre_defined f = leb (word f % 4096) 256

-- `val & 0x9000 == 0`
unfoldable pub atomic : TagInfo → Bool
atomic f = not (has_bit 32768 (word f)) && not (has_bit 4096 (word f))

unfoldable pub tag_template_id : TagInfo → ℕ
unfolding template_id
tag_template_id f = template_id (word f)

-- The end of a member, a uint32.
abbrev pub member_end : MemberInfo → ℕ
member_end m = (m.offset + size (cip_type m)) % 4294967296

abbrev larger : ℕ → MemberInfo → ℕ
larger n m = if ltb n (member_end m) then member_end m else n

-- UDTDescriptor.Size: the loop, with the greatest end so far.
unfoldable pub max_size : ℕ → List MemberInfo → ℕ
max_size n [] = n
max_size n (m ∷ members) = max_size (larger n m) members

unfoldable pub udt_size : List MemberInfo → ℕ
udt_size = max_size 0

bits_of_template :
    (val template dimensions : ℕ)
    → template < 4096
    → dimensions < 4
    → val ≡ 32768 + 8192 * dimensions + template
    → (val / 32768 % 2 ≡ 1) × (val / 4096 % 2 ≡ 0) × (val % 4096 ≡ template)
bits_of_template val template dimensions h k e = (omega arith, omega arith, omega arith)

-- A type word with bit 15, a number of dimensions (up to 3, in bits 13 and 14) and a template number
-- below 4096 has that template number, and its tag is not atomic.
pub tag_template_id_lem :
    (f : TagInfo) (template dimensions : ℕ)
    → template < 4096
    → dimensions < 4
    → word f ≡ 32768 + 8192 * dimensions + template
    → (tag_template_id f ≡ template) × (atomic f ≡ false)
unfolding tag_template_id template_id atomic
tag_template_id_lem f template dimensions h k e =
    let (p, q, r) = bits_of_template (word f) template dimensions h k e in (rw (p, q) r, rw p)

member_end-le-larger : (n : ℕ) (m : MemberInfo) → member_end m ≤ larger n m
member_end-le-larger n m = ground arith

larger_grows : (n : ℕ) (m : MemberInfo) → n ≤ larger n m
larger_grows n m = ground arith

max_size_grows : (n : ℕ) (members : List MemberInfo) → n ≤ max_size n members
unfolding max_size
max_size_grows n [] = omega arith
max_size_grows n (m ∷ members) = le_trans (larger_grows n m) (max_size_grows (larger n m) members)

abbrev pub EndsBy : ℕ → MemberInfo → Type 0
EndsBy n m = member_end m ≤ n

max_size-EndsBy : (n : ℕ) (members : List MemberInfo) → All (EndsBy (max_size n members)) members
unfolding max_size
max_size-EndsBy n [] = tt
max_size-EndsBy n (m ∷ members) = (
  le_trans (member_end-le-larger n m) (max_size_grows (larger n m) members),
  max_size-EndsBy (larger n m) members,
)

-- No member of a structure ends behind the size that UDTDescriptor.Size gives, where the end of a
-- member is the uint32 sum of its offset and the size of its type.
pub udt_size-EndsBy : (members : List MemberInfo) → All (EndsBy (udt_size members)) members
unfolding udt_size
udt_size-EndsBy members = max_size-EndsBy 0 members
