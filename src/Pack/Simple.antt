-- ===== src/Pack/Simple.antt =====
-- What Unpack (pack.go) reads of one number, one string, or an array of them, as Pack writes it.
use Prim.Native.Nat.{◌^◌}
use gologix.Base.{
  ℕ, suc, ◌-◌, ◌*◌, ◌%◌, ◌≤◌, ◌<◌, ◌≡◌, refl, ap, ◌∙◌, List, [], ◌∷◌, ◌++◌, Bool, true, false,
  length, replicate, take, drop, ltb, map, length-append, length-replicate, take-append,
  drop-append, take_all, le→ltb, append_assoc, arith, All,
}
use gologix.Base.Result.{ok}
use gologix.Wire.{Bytes, read_u8, read_u32}
use gologix.Wire.RoundTrip.{read_u32-put}
use gologix.Types.Values.{
  NumType, width, put_num, uint8, int8, uint16, int16, uint32, int32, uint64, int64, float32,
  float64,
}
use gologix.Types.Reading.{read_num-put}
use gologix.Pack.{bit_value, text_bytes, texts_bytes, nums_bytes}
use gologix.Pack.Unpack.{read_bools, read_nums, read_text, read_texts, text_from}

pub length-map : {A B : Type 0} (f : A → B) (xs : List A) → length (map f xs) ≡ length xs
length-map f [] = refl
length-map f (x ∷ xs) = ap suc (length-map f xs)

pub read_bools-put :
    (bs : List Bool) (rest : Bytes)
    → read_bools (map (λ _. false) bs) (map bit_value bs ++ rest) ≡ ok (bs, rest)
unfolding read_bools read_u8
read_bools-put [] rest = refl
read_bools-put (true ∷ bs) rest = rw (read_bools-put bs rest) refl
read_bools-put (false ∷ bs) rest = rw (read_bools-put bs rest) refl

pub read_nums-put :
    (n : NumType) (vs : List ℕ) (rest : Bytes)
    → All (λ v. v < 256 ^ width n) vs
    → read_nums n (map (λ _. 0) vs) (nums_bytes n vs ++ rest) ≡ ok (vs, rest)
unfolding read_nums nums_bytes
read_nums-put n [] rest h = refl
read_nums-put n (v ∷ vs) rest h =
    rw
      (
        append_assoc (put_num n v) (nums_bytes n vs) rest,
        read_num-put n v (nums_bytes n vs ++ rest) h.0,
        read_nums-put n vs rest h.1,
      )
      refl

pub length-put_num : (n : NumType) (v : ℕ) → length (put_num n v) ≡ width n
unfolding put_num width
length-put_num uint8 v = refl
length-put_num int8 v = refl
length-put_num uint16 v = refl
length-put_num int16 v = refl
length-put_num uint32 v = refl
length-put_num int32 v = refl
length-put_num uint64 v = refl
length-put_num int64 v = refl
length-put_num float32 v = refl
length-put_num float64 v = refl

pub length-nums_bytes : (n : NumType) (vs : List ℕ) → length (nums_bytes n vs) ≡ width n * length vs
unfolding nums_bytes
length-nums_bytes n [] = omega arith
length-nums_bytes n (v ∷ vs) =
    length-append (put_num n v) (nums_bytes n vs)
    ∙ rw (length-put_num n v, length-nums_bytes n vs) (omega arith)

pub length-text_bytes : (s : Bytes) → length s ≤ 82 → length (text_bytes s) ≡ 86
unfolding text_bytes
length-text_bytes s h = omega (
  arith,
  length-append (take 82 s) (replicate (82 - length s) 0),
  length-replicate {A = ℕ} (82 - length s) 0,
  ap length (take_all 82 s h),
)

read_padded :
    (s : Bytes) (rest : Bytes)
    → length s ≤ 82
    → text_from (read_u32 (text_bytes s)) rest ≡ ok (s, rest)
unfolding text_bytes text_from
read_padded s rest h =
    let small : length s % 4294967296 < 4294967296 = omega arith in
    let same : length s % 4294967296 ≡ length s = omega arith in
    rw
      (
        read_u32-put (length s % 4294967296) (take 82 s ++ replicate (82 - length s) 0) small,
        same,
        take_all 82 s h,
        take-append s (replicate (82 - length s) 0),
      )
      (ground arith)

pub read_text-put :
    (s rest : Bytes) → length s ≤ 82 → read_text (text_bytes s ++ rest) ≡ ok (s, rest)
unfolding read_text
read_text-put s rest h =
    let n : length (text_bytes s) ≡ 86 = length-text_bytes s h in
    let t : take 86 (text_bytes s ++ rest) ≡ text_bytes s =
      rw (← n) (take-append (text_bytes s) rest) in
    let d : drop 86 (text_bytes s ++ rest) ≡ rest = rw (← n) (drop-append (text_bytes s) rest) in
    let l : ltb (length (text_bytes s ++ rest)) 86 ≡ false =
      le→ltb _ 86 (omega (arith, n, length-append (text_bytes s) rest)) in
    rw (t, d, read_padded s rest h, l) refl

pub read_texts-put :
    (ss : List Bytes) (rest : Bytes)
    → All (λ s. length s ≤ 82) ss
    → read_texts (map (λ _. []) ss) (texts_bytes ss ++ rest) ≡ ok (ss, rest)
unfolding read_texts texts_bytes
read_texts-put [] rest h = refl
read_texts-put (s ∷ ss) rest h =
    rw
      (
        append_assoc (text_bytes s) (texts_bytes ss) rest,
        read_text-put s (texts_bytes ss ++ rest) h.0,
        read_texts-put ss rest h.1,
      )
      refl

pub length-texts_bytes :
    (ss : List Bytes) → All (λ s. length s ≤ 82) ss → length (texts_bytes ss) ≡ 86 * length ss
unfolding texts_bytes
length-texts_bytes [] h = refl
length-texts_bytes (s ∷ ss) h = omega (
  arith,
  length-append (text_bytes s) (texts_bytes ss),
  length-text_bytes s h.0,
  length-texts_bytes ss h.1,
)
