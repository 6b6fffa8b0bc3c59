-- ===== src/Members/Payload.antt =====
-- What collectMemberReadPayload (listmembers.go) returns over a device that serves a template.
use gologix.Base.{
  ℕ, zero, suc, ◌+◌, ◌-◌, ◌*◌, ◌%◌, ◌<◌, ◌≤◌, ◌≡◌, refl, ap, ◌∙◌, [], ◌∷◌, ◌++◌, false, length, ltb,
  ◌==◌, if◌then◌else◌, take, drop, arith, min, take_all, length-take, length-drop, inl, inr,
  Bool-cases, ltb→lt, lt→ltb,
}
use gologix.Base.Result.{Result, ok}
use native.Mathlib.Nat.{mod-eq_of_lt}
use gologix.Wire.{Bytes}
use gologix.Members.{
  ChunkFetcher, accept, remaining, request_len, collect_rounds, collect_member_read_payload,
  status_ok, status_partial_transfer,
}

-- What a device that holds `content` answers to a read of `m` bytes: the bytes, and whether more follow.
abbrev pub answer : Bytes → ℕ → ℕ → ℕ × Bytes
answer content offset m = (
  if ltb (offset + m) (length content) then status_partial_transfer else status_ok,
  take m (drop offset content),
)

-- The device answers every read of it with at least one byte: no more than asked for or left, and not
-- less than `size`, unless less is asked for or left.
pub record Serves (size : ℕ) (content : Bytes) (fetch : ChunkFetcher) : Type 0 where
  pub served : (offset len : ℕ) → ℕ
  pub not_empty : (offset len : ℕ) → offset < length content → 0 < len → 0 < served offset len
  pub at_most : (offset len : ℕ) → offset < length content → 0 < len → served offset len ≤ len
  pub within :
      (offset len : ℕ)
      → offset < length content
      → 0 < len
      → offset + served offset len ≤ length content
  pub at_least :
      (offset len : ℕ)
      → offset < length content
      → 0 < len
      → min size (min len (length content - offset)) ≤ served offset len
  pub answers :
      (offset len : ℕ)
      → offset < length content
      → 0 < len
      → fetch offset len ≡ ok (answer content offset (served offset len))

take_none : (n : ℕ) → take {A = ℕ} n [] ≡ []
take_none zero = refl
take_none (suc n) = refl

drop_none : (n : ℕ) → drop {A = ℕ} n [] ≡ []
drop_none zero = refl
drop_none (suc n) = refl

take_nil : (n m : ℕ) → take {A = ℕ} n [] ++ take m (drop n []) ≡ take (n + m) []
take_nil n m = rw (drop_none n, take_none n, take_none m, take_none (n + m))

take-take-drop : (n m : ℕ) (s : Bytes) → take n s ++ take m (drop n s) ≡ take (n + m) s
take-take-drop n m [] = take_nil n m
take-take-drop zero m (c ∷ s) = ap (λ k. take k (c ∷ s)) {x = m} (omega arith)
take-take-drop (suc n) m (c ∷ s) =
    ap (λ r. c ∷ r) (take-take-drop n m s)
    ∙ ap (λ k. take k (c ∷ s)) {x = suc (n + m)} (omega arith)

remaining-lem : (n offset : ℕ) → offset < n → n < 4294967296 → remaining n offset ≡ n - offset
remaining-lem n offset h k = omega arith

request_len_bounds :
    (left : ℕ) → 0 < left → (0 < request_len left) × (request_len left ≡ min 65535 left)
request_len_bounds left h = ground arith

round_accept :
    (rounds total : ℕ) (fetch : ChunkFetcher) (offset : ℕ) (payload : Bytes) (a : ℕ × Bytes)
    → (remaining total offset == 0) ≡ false
    → fetch offset (request_len (remaining total offset)) ≡ ok a
    → collect_rounds (suc rounds) total fetch offset payload
      ≡ accept
          (λ chunk.
            collect_rounds rounds total fetch
              ((offset + length chunk) % 4294967296)
              (payload ++ chunk))
          payload
          a
unfolding collect_rounds
round_accept rounds total fetch offset payload a h e = rw (collect_rounds, h, e)

length-chunk :
    (content : Bytes) (offset m : ℕ)
    → offset + m ≤ length content
    → length (take m (drop offset content)) ≡ m
length-chunk content offset m h =
    rw (length-take m (drop offset content), length-drop offset content) (omega arith)

accept_partial :
    (again : Bytes → Result Bytes) (payload content : Bytes) (offset m : ℕ)
    → 0 < m
    → offset + m < length content
    → accept again payload (answer content offset m) ≡ again (take m (drop offset content))
accept_partial again payload content offset m h k =
    rw (lt→ltb (offset + m) (length content) k, length-chunk content offset m (omega arith))
      (ground arith)

accept_last :
    (again : Bytes → Result Bytes) (content : Bytes) (offset m : ℕ)
    → offset + m ≡ length content
    → accept again (take offset content) (answer content offset m) ≡ ok content
accept_last again content offset m h =
    rw (h) (ground (arith, take-take-drop offset m content, take_all (offset + m) content))

module _ (size : ℕ) (content : Bytes) (fetch : ChunkFetcher) (sizes : 0 < size)
    (small : size < 65536) (fits : length content < 4294967296)
    (serves : Serves size content fetch) where
  enough :
      (rounds offset m : ℕ)
      → length content ≤ offset + suc rounds * size
      → min size (min (request_len (length content - offset)) (length content - offset)) ≤ m
      → offset + m < length content
      → request_len (length content - offset) ≡ min 65535 (length content - offset)
      → length content ≤ offset + m + rounds * size
  enough rounds offset m k a b q = omega (arith, q)

  offset_fits : (offset m : ℕ) → offset + m ≤ length content → offset + m < 4294967296
  offset_fits offset m h = omega arith

  last_byte :
      (offset m : ℕ)
      → offset + m ≤ length content
      → ltb (offset + m) (length content) ≡ false
      → offset + m ≡ length content
  last_byte offset m h k = ground arith

  collect_rounds-Serves :
      (rounds offset : ℕ)
      → offset < length content
      → length content ≤ offset + rounds * size
      → collect_rounds rounds (length content) fetch offset (take offset content) ≡ ok content
  collect_rounds-Serves zero offset h k = absurd (omega arith)
  collect_rounds-Serves (suc rounds) offset h k =
      let left = length content - offset in
      let (p, q) = request_len_bounds left (omega arith) in
      let l = request_len left in
      let m = serves.served offset l in
      let e = serves.answers offset l h p in
      let at_most = serves.at_most offset l h p in
      let within = serves.within offset l h p in
      let at_least = serves.at_least offset l h p in
      let left_lem = remaining-lem (length content) offset h fits in
      let again = λ (chunk : Bytes).
        collect_rounds rounds (length content) fetch ((offset + length chunk) % 4294967296)
          (take offset content ++ chunk) in
      let start =
        round_accept rounds (length content) fetch offset (take offset content)
          (answer content offset m) (ground (arith, left_lem))
          (ap (λ r. fetch offset (request_len r)) left_lem ∙ e) in
      elim (Bool-cases (ltb (offset + m) (length content))) [
        | inl more ↦
            start
            ∙ accept_partial again (take offset content) content offset m
                (serves.not_empty offset l h p) (ltb→lt _ _ more)
            ∙ rw
                (
                  length-chunk content offset m within,
                  take-take-drop offset m content,
                  mod-eq_of_lt (offset_fits offset m within),
                )
                (collect_rounds-Serves rounds (offset + m) (ltb→lt _ _ more)
                  (enough rounds offset m k at_least (ltb→lt _ _ more) q))
        | inr done ↦ start ∙ accept_last again content offset m (last_byte offset m within done)
      ]

-- A device that serves a template of fewer than 2^32 bytes, at least `size` bytes in an answer where
-- that many are asked for and left, is read in full where 1024 answers of that size cover it: the
-- result is the template's bytes, no error and nothing missing.
pub collect_member_read_payload-Serves :
    (size : ℕ) (content : Bytes) (fetch : ChunkFetcher)
    → 0 < size
    → size < 65536
    → length content < 4294967296
    → length content ≤ 1024 * size
    → Serves size content fetch
    → collect_member_read_payload (length content) fetch ≡ ok content
unfolding collect_member_read_payload
collect_member_read_payload-Serves size [] fetch s t h k serves = refl
collect_member_read_payload-Serves size (c ∷ content) fetch s t h k serves =
    collect_rounds-Serves size (c ∷ content) fetch s t h serves 1024 0 (omega arith) (omega arith)
