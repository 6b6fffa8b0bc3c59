-- ===== src/Ioi/Named.antt =====
-- A round of getTagFromPath (ioi.go) on a name that has characters.
use gologix.Base.{
  ℕ, zero, suc, ◌%◌, ◌≡◌, ◌≢◌, inl, inr, refl, [], ◌∷◌, ◌++◌, Bool, true, false, length, take, drop,
  ltb, arith, ◌==◌, ==_iff, if◌then◌else◌, Bool-cases,
}
use gologix.Base.Result.{Result, ok, err, panic}
use gologix.Wire.{Bytes, Reader, pure, ◌>>=◌, ◌>>◌, read_u8, read_u16, read_full}
use gologix.Text.{ends_with}
use gologix.Ioi.Decode.{
  Round, done, more, continued, round, byte_index, word_index, ascii_part, add_index, add_name,
  get_ascii_tag_part, init,
}

-- A round that does not panic, and leaves a name with characters.
unfoldable pub IsNamed : Result Round → Type 0
IsNamed (ok (done left)) = Unit {0}
IsNamed (ok (more [] left)) = ⊥
IsNamed (ok (more (c ∷ tag) left)) = Unit {0}
IsNamed (err e) = Unit {0}
IsNamed panic = ⊥

joined-IsNamed : (xs : Bytes) (y : ℕ) (ys left : Bytes) → IsNamed (ok (more (xs ++ y ∷ ys) left))
unfolding IsNamed
joined-IsNamed [] y ys left = tt
joined-IsNamed (x ∷ xs) y ys left = tt

add_index-IsNamed :
    (c : ℕ) (tag : Bytes) (index : ℕ) (rest : Bytes)
    → IsNamed (continued (add_index (c ∷ tag) index rest))
unfolding add_index continued IsNamed
add_index-IsNamed c tag index rest = elim (Bool-cases (ends_with b']' (c ∷ tag))) [
  | inl e ↦ rw e (joined-IsNamed (init (c ∷ tag)) b',' _ rest)
  | inr e ↦ rw e tt
]

-- The name of a part: an error, or a name that has no characters only where the part says so.
abbrev pub IsPart : Bytes → Result (Bytes × Bytes) → Type 0
IsPart b (ok (s, rest)) = s ≡ [] → b ≡ 0 ∷ rest
IsPart b (err e) = Unit {0}
IsPart b panic = ⊥

some_taken : (n : ℕ) (b : Bytes) → (n == 0) ≡ false → ltb (length b) n ≡ false → take n b ≢ []
some_taken zero b h k = cc
some_taken (suc n) [] h k = absurd (ground arith)
some_taken (suc n) (x ∷ b) h k = λ e. cc

padded :
    (odd : Bool) (s rest b : Bytes)
    → s ≢ []
    → IsPart b ((if◌then◌else◌ {A = Reader Bytes} odd (read_u8 >> pure s) (pure s)) rest)
unfolding read_u8
padded true s [] b h = tt
padded true s (x ∷ rest) b h = λ e. absurd (h e)
padded false s rest b h = λ e. absurd (h e)

pub get_ascii_tag_part-IsPart : (b : Bytes) → IsPart b (get_ascii_tag_part b)
unfolding get_ascii_tag_part read_u8 read_full
get_ascii_tag_part-IsPart [] = tt
get_ascii_tag_part-IsPart (n ∷ b) = elim (Bool-cases (n == 0)) [
  | inl e ↦ let p : n ≡ 0 = (==_iff n 0).0 e in rw p (λ q. refl)
  | inr e ↦ elim (Bool-cases (length b == 0)) [
    | inl f ↦ rw (e, f) tt
    | inr f ↦ elim (Bool-cases (ltb (length b) n)) [
      | inl g ↦ rw (e, f, g) tt
      | inr g ↦
          rw (e, f, g) (padded (n % 2 == 1) (take n b) (drop n b) (n ∷ b) (some_taken n b e g))
    ]
  ]
]

named :
    (c : ℕ) (tag b : Bytes) (r : Result (Bytes × Bytes))
    → IsPart b r
    → IsNamed (continued (((λ x. r) >>= λ s. pure (add_name (c ∷ tag) s)) b))
unfolding continued IsNamed add_name
named c tag b (ok (s, rest)) h = tt
named c tag b (err e) h = tt
named c tag b panic h = absurd h

byte_index-IsNamed : (c : ℕ) (tag b : Bytes) → IsNamed (continued (byte_index (c ∷ tag) b))
unfolding byte_index continued read_u8 IsNamed
byte_index-IsNamed c tag [] = tt
byte_index-IsNamed c tag (i ∷ b) = add_index-IsNamed c tag i b

word_index-IsNamed : (c : ℕ) (tag b : Bytes) → IsNamed (continued (word_index (c ∷ tag) b))
unfolding word_index continued read_u8 read_u16 IsNamed
word_index-IsNamed c tag [] = tt
word_index-IsNamed c tag (pad ∷ []) = tt
word_index-IsNamed c tag (pad ∷ x ∷ []) = tt
word_index-IsNamed c tag (pad ∷ x ∷ y ∷ b) = add_index-IsNamed c tag _ b

pub round-IsNamed : (c : ℕ) (tag b : Bytes) → IsNamed (round (c ∷ tag) b)
unfolding round IsNamed ascii_part
round-IsNamed c tag [] = tt
round-IsNamed c tag (t ∷ b) = elim (Bool-cases (t == 0x28)) [
  | inl e ↦ rw e (byte_index-IsNamed c tag b)
  | inr e ↦ elim (Bool-cases (t == 0x29)) [
    | inl f ↦ rw (e, f) (word_index-IsNamed c tag b)
    | inr f ↦ elim (Bool-cases (t == 0x91)) [
      | inl g ↦ rw (e, f, g) (named c tag b (get_ascii_tag_part b) (get_ascii_tag_part-IsPart b))
      | inr g ↦ rw (e, f, g) tt
    ]
  ]
]
