-- ===== src/Item/Cursor.antt =====
-- The reading methods of an item (items.go): when they answer, what, and where they stop.
use gologix.Base.{
  ℕ, zero, suc, ◌+◌, ◌*◌, ◌≤◌, ◌<◌, ◌≡◌, ◌⊎◌, inl, inr, refl, [], ◌∷◌, length, take, drop, arith,
  All, leb, length-drop, length-take, Bool-cases, leb-false,
}
use gologix.Base.Result.{Result, ok, err, out_of_data}
use gologix.Wire.{Bytes, IsByte, put_u8, put_u16, put_u32, put_u64, of_u16, of_u32}
use gologix.Item.{
  CipItem, next, le_u8, le_u16, le_u32, le_u64, byte, uint16, uint32, uint64, float32, float64,
  deserialize, decoded,
}

-- `method` reads a number of `n` bytes: with too few bytes left it answers "out of data" and leaves
-- the item alone; else its answer is the number whose encoding stands at the position, and the
-- position moves behind it.
abbrev pub Reads : ℕ → (ℕ → Bytes) → (CipItem → Result ℕ × CipItem) → CipItem → Type 0
Reads n encode method item =
    ((length item.content < item.position + n) × (method item ≡ (err out_of_data, item)))
    ⊎ ((v : ℕ) × (take n (drop item.position item.content) ≡ encode v)
        × (method item ≡ (ok v, record item { position = item.position + n })))

All-drop : (n : ℕ) (b : Bytes) → All IsByte b → All IsByte (drop n b)
All-drop zero b h = h
All-drop (suc n) [] h = tt
All-drop (suc n) (x ∷ b) h = All-drop n b h.1

next-Reads :
    (k : ℕ) (decode : Bytes → Result ℕ) (encode : ℕ → Bytes) (item : CipItem)
    → ((b : Bytes)
        → All IsByte b
        → suc k ≤ length b
        → (v : ℕ) × (take (suc k) b ≡ encode v) × (decode b ≡ ok v))
    → All IsByte item.content
    → Reads (suc k) encode (next k decode) item
unfolding next
next-Reads k decode encode item decodes h =
    elim (Bool-cases (leb (length item.content) (item.position + k))) [
      | inl short ↦ inl (ground (arith, short), rw short)
      | inr enough ↦
          let (v, e, d) =
            decodes (drop item.position item.content) (All-drop item.position item.content h)
              (omega (arith, length-drop item.position item.content, leb-false _ _ enough)) in
          inr (v, e, rw (enough, d))
    ]

le_u8_decodes :
    (b : Bytes) → All IsByte b → 1 ≤ length b → (v : ℕ) × (take 1 b ≡ put_u8 v) × (le_u8 b ≡ ok v)
le_u8_decodes (a ∷ r) h l = (a, ground arith, refl)
le_u8_decodes _ h l = absurd (omega arith)

le_u16_decodes :
    (b : Bytes) → All IsByte b → 2 ≤ length b → (v : ℕ) × (take 2 b ≡ put_u16 v) × (le_u16 b ≡ ok v)
le_u16_decodes (a ∷ c ∷ r) h l = (of_u16 a c, ground arith, refl)
le_u16_decodes _ h l = absurd (omega arith)

le_u32_decodes :
    (b : Bytes) → All IsByte b → 4 ≤ length b → (v : ℕ) × (take 4 b ≡ put_u32 v) × (le_u32 b ≡ ok v)
le_u32_decodes (a ∷ c ∷ d ∷ e ∷ r) h l = (of_u32 a c d e, ground arith, refl)
le_u32_decodes _ h l = absurd (omega arith)

le_u64_decodes :
    (b : Bytes) → All IsByte b → 8 ≤ length b → (v : ℕ) × (take 8 b ≡ put_u64 v) × (le_u64 b ≡ ok v)
le_u64_decodes (a ∷ c ∷ d ∷ e ∷ i ∷ j ∷ k ∷ l ∷ r) h le =
    (of_u32 a c d e + 4294967296 * of_u32 i j k l, ground arith, refl)
le_u64_decodes _ h l = absurd (omega arith)

-- `Byte`, `Uint16`, `Uint32` and `Uint64`, over an item of bytes: too few bytes give "out of data"
-- and move nothing; else the answer is the number encoded at the position, and the position moves
-- behind it.
pub unsigned_methods_read :
    (item : CipItem)
    → All IsByte item.content
    → Reads 1 put_u8 byte item
      × Reads 2 put_u16 uint16 item
      × Reads 4 put_u32 uint32 item
      × Reads 8 put_u64 uint64 item
unfolding byte uint16 uint32 uint64
unsigned_methods_read item h = (
  next-Reads 0 le_u8 put_u8 item le_u8_decodes h,
  next-Reads 1 le_u16 put_u16 item le_u16_decodes h,
  next-Reads 3 le_u32 put_u32 item le_u32_decodes h,
  next-Reads 7 le_u64 put_u64 item le_u64_decodes h,
)

-- What binary.Read of `n` bytes over the item gives, on each of its four branches.
pub deserialize_enough :
    (n : ℕ) (item : CipItem)
    → item.position + n ≤ length item.content
    → 0 < n
    → deserialize n item ≡ (
      ok (take n (drop item.position item.content)),
      record item { position = item.position + n },
    )
unfolding deserialize
deserialize_enough n item h p =
    ground (
      arith,
      length-take n (drop item.position item.content),
      length-drop item.position item.content,
    )

le_u32-take : (b : Bytes) → le_u32 (take 4 b) ≡ le_u32 b
le_u32-take [] = refl
le_u32-take (a ∷ []) = refl
le_u32-take (a ∷ c ∷ []) = refl
le_u32-take (a ∷ c ∷ d ∷ []) = refl
le_u32-take (a ∷ c ∷ d ∷ e ∷ r) = refl

le_u64-take : (b : Bytes) → le_u64 (take 8 b) ≡ le_u64 b
le_u64-take [] = refl
le_u64-take (a ∷ []) = refl
le_u64-take (a ∷ c ∷ []) = refl
le_u64-take (a ∷ c ∷ d ∷ []) = refl
le_u64-take (a ∷ c ∷ d ∷ e ∷ []) = refl
le_u64-take (a ∷ c ∷ d ∷ e ∷ f ∷ []) = refl
le_u64-take (a ∷ c ∷ d ∷ e ∷ f ∷ g ∷ []) = refl
le_u64-take (a ∷ c ∷ d ∷ e ∷ f ∷ g ∷ h ∷ []) = refl
le_u64-take (a ∷ c ∷ d ∷ e ∷ f ∷ g ∷ h ∷ i ∷ r) = refl

decoded-ok : (f : Bytes → Result ℕ) (b : Bytes) → decoded f (ok b) ≡ f b
unfolding decoded
decoded-ok f b = refl

float32-eq-uint32 : (item : CipItem) → float32 item ≡ uint32 item
unfolding float32 uint32
float32-eq-uint32 item = elim (Bool-cases (leb (length item.content) (item.position + 3))) [
  | inl short ↦ rw short
  | inr enough ↦
      rw (enough, deserialize_enough 4 item (omega (arith, leb-false _ _ enough)) (omega arith))
        (rw (decoded-ok, le_u32-take))
]

float64-eq-uint64 : (item : CipItem) → float64 item ≡ uint64 item
unfolding float64 uint64
float64-eq-uint64 item = elim (Bool-cases (leb (length item.content) (item.position + 7))) [
  | inl short ↦ rw short
  | inr enough ↦
      rw (enough, deserialize_enough 8 item (omega (arith, leb-false _ _ enough)) (omega arith))
        (rw (decoded-ok, le_u64-take))
]

-- `Float32` and `Float64`, which go through binary.Read, give the bits and the position that
-- `Uint32` and `Uint64` give, on every item.
pub float-eq-uint : (item : CipItem) → (float32 item ≡ uint32 item) × (float64 item ≡ uint64 item)
float-eq-uint item = (float32-eq-uint32 item, float64-eq-uint64 item)
