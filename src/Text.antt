-- ===== src/Text.antt =====
-- What the sources use of Go's strings, strconv and fmt. A string is the list of its bytes.
pub mod Decimal
pub mod Split
pub mod Find
use gologix.Base.{
  ℕ, zero, suc, ◌+◌, ◌-◌, ◌*◌, ◌/◌, ◌%◌, ◌^◌, List, [], ◌∷◌, ◌++◌, Bool, true, false, ◌&&◌, ◌||◌,
  Option, none, some, ltb, leb, ◌==◌, if◌then◌else◌, length,
}
use gologix.Base.Int.{ℤ, pos, negsuc}
use gologix.Base.Result.{Result, ok, err, bad_number}
use Prim.Native.Char.{code}
use Prim.Native.String.{String}
use gologix.Wire.{Bytes}

-- strings.Contains of one character
unfoldable pub contains : ℕ → Bytes → Bool
contains c [] = false
contains c (x ∷ s) = x == c || contains c s

-- strings.ReplaceAll of one character by nothing
unfoldable pub remove_all : ℕ → Bytes → Bytes
remove_all c [] = []
remove_all c (x ∷ s) = let rest = remove_all c s in if x == c then rest else x ∷ rest

abbrev cons_head : ℕ → List Bytes → List Bytes
cons_head x [] = (x ∷ []) ∷ []
cons_head x (p ∷ ps) = (x ∷ p) ∷ ps

-- strings.Split at one character: at least one part
unfoldable pub split : ℕ → Bytes → List Bytes
split c [] = [] ∷ []
split c (x ∷ s) = let rest = split c s in if x == c then [] ∷ rest else cons_head x rest

-- strings.Join with one character
unfoldable pub join : ℕ → List Bytes → Bytes
join c [] = []
join c (p ∷ []) = p
join c (p ∷ q ∷ ps) = p ++ (c ∷ join c (q ∷ ps))

abbrev pub is_digit : ℕ → Bool
is_digit b = leb b'0' b && leb b b'9'

parse_digits : ℕ → Bytes → Option ℕ
parse_digits acc [] = some acc
parse_digits acc (d ∷ s) = if is_digit d then parse_digits (acc * 10 + (d - b'0')) s else none

parse_uint : Bytes → Option ℕ
unfolding parse_digits
parse_uint [] = none
parse_uint (d ∷ s) = parse_digits 0 (d ∷ s)

abbrev negate : ℕ → ℤ
negate zero = pos 0
negate (suc n) = negsuc n

positive : Option ℕ → Result ℤ
positive none = err bad_number
positive (some n) = if ltb n (2 ^ 63) then ok (pos n) else err bad_number

negative : Option ℕ → Result ℤ
negative none = err bad_number
negative (some n) = if leb n (2 ^ 63) then ok (negate n) else err bad_number

-- strconv.Atoi: a sign, then decimal digits, within a 64-bit int
unfoldable pub atoi : Bytes → Result ℤ
unfolding positive negative parse_uint
atoi [] = err bad_number
atoi (c ∷ s) =
    if c == b'+'
    then positive (parse_uint s)
    else if c == b'-'
    then negative (parse_uint s)
    else positive (parse_uint (c ∷ s))

unfoldable pub digits : ℕ → ℕ → Bytes
digits zero n = []
digits (suc f) n =
    let more = digits f (n / 10) ++ ((b'0' + n % 10) ∷ []) in
    if ltb n 10 then (b'0' + n) ∷ [] else more

-- fmt's %d of an unsigned number. Twenty digits are enough for 64 bits.
unfoldable pub decimal : ℕ → Bytes
unfolding digits
decimal n = digits 20 n

unfoldable pub starts_with : Bytes → Bytes → Bool
starts_with [] s = true
starts_with (c ∷ t) [] = false
starts_with (c ∷ t) (x ∷ s) = x == c && starts_with t s

-- The scan of strings.ReplaceAll of `t` by nothing, with `k` bytes of a match still to skip.
remove_scan : Bytes → ℕ → Bytes → Bytes
unfolding starts_with
remove_scan t k [] = []
remove_scan t (suc k) (x ∷ s) = remove_scan t k s
remove_scan t zero (x ∷ s) = elim (starts_with t (x ∷ s)) [
  | true ↦ remove_scan t (length t - 1) s
  | false ↦ x ∷ remove_scan t zero s
]

-- strings.ReplaceAll of a text by nothing; the empty text is replaced by nothing everywhere.
unfoldable pub remove_text : Bytes → Bytes → Bytes
unfolding remove_scan
remove_text [] s = s
remove_text (c ∷ t) s = remove_scan (c ∷ t) 0 s

-- strings.HasSuffix of one character
unfoldable pub ends_with : ℕ → Bytes → Bool
ends_with c [] = false
ends_with c (x ∷ []) = x == c
ends_with c (x ∷ y ∷ s) = ends_with c (y ∷ s)

-- `s[:strings.Index(s, c)]`, and the whole of `s` if the character is not there
unfoldable pub take_until : ℕ → Bytes → Bytes
take_until c [] = []
take_until c (x ∷ s) = if x == c then [] else x ∷ take_until c s

unfoldable pub all_digits : Bytes → Bool
all_digits [] = true
all_digits (d ∷ s) = is_digit d && all_digits s

-- The bytes of an ASCII text.
abbrev pub codes : String → Bytes
codes String.[] = []
codes (String.◌∷◌ c s) = code c ∷ codes s
