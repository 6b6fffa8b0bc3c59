-- ===== src/Members/Bounds.antt =====
-- How much collectMemberReadPayload (listmembers.go) can return, whatever the device answers.
use gologix.Base.{
  ℕ, zero, suc, ◌+◌, ◌%◌, ◌<◌, ◌≤◌, ◌≡◌, sym, ap, ◌∙◌, ◌⊎◌, inl, inr, [], ◌++◌, Bool-cases, true,
  false, length, ◌==◌, arith, length-append,
}
use gologix.Base.Result.{Result, ok, ◌>>=◌, >>=-eq-ok}
use native.Mathlib.Nat.{mod-eq_of_lt}
use gologix.Wire.{Bytes}
use gologix.Members.{
  ChunkFetcher, accept, remaining, request_len, collect_rounds, collect_member_read_payload,
}

-- An answer never has more bytes than were asked for.
abbrev pub IsModest : ChunkFetcher → Type 0
IsModest fetch =
    (offset len status : ℕ) (chunk : Bytes)
    → fetch offset len ≡ ok (status, chunk)
    → length chunk ≤ len

accept-eq-ok :
    (again : Bytes → Result Bytes) (payload : Bytes) (status : ℕ) (chunk p : Bytes)
    → accept again payload (status, chunk) ≡ ok p
    → (p ≡ payload ++ chunk) ⊎ (again chunk ≡ ok p)
accept-eq-ok again payload status chunk p h = ground arith

fits_too :
    (payload chunk : Bytes) (total : ℕ) {l : ℕ}
    → length chunk ≤ l
    → l + length payload ≤ total
    → length (payload ++ chunk) ≤ total
fits_too payload chunk total h k = omega (arith, length-append payload chunk)

request_len_small :
    (total offset : ℕ)
    → offset ≤ total
    → total < 4294967296
    → request_len (remaining total offset) + offset ≤ total
request_len_small total offset h k = ground arith

round_stops :
    (rounds total : ℕ) (fetch : ChunkFetcher) (offset : ℕ) (payload p : Bytes)
    → (remaining total offset == 0) ≡ true
    → collect_rounds (suc rounds) total fetch offset payload ≡ ok p
    → payload ≡ p
unfolding collect_rounds
round_stops rounds total fetch offset payload p h e = ground arith

-- The rounds behind an answer.
abbrev rest_of : ℕ → ℕ → ChunkFetcher → ℕ → Bytes → Bytes → Result Bytes
rest_of rounds total fetch offset payload chunk =
    collect_rounds rounds total fetch ((offset + length chunk) % 4294967296) (payload ++ chunk)

round_goes_on :
    (rounds total : ℕ) (fetch : ChunkFetcher) (offset : ℕ) (payload : Bytes)
    → (remaining total offset == 0) ≡ false
    → (fetch offset (request_len (remaining total offset))
        >>= accept (rest_of rounds total fetch offset payload) payload)
      ≡ collect_rounds (suc rounds) total fetch offset payload
unfolding collect_rounds
round_goes_on rounds total fetch offset payload h = rw h

next_offset :
    (payload chunk : Bytes) (total : ℕ)
    → length (payload ++ chunk) ≤ total
    → total < 4294967296
    → (length payload + length chunk) % 4294967296 ≡ length (payload ++ chunk)
next_offset payload chunk total h k =
    rw (length-append payload chunk) (mod-eq_of_lt (omega (arith, length-append payload chunk)))

collect_rounds_bounded :
    (rounds total : ℕ) (fetch : ChunkFetcher) (payload p : Bytes)
    → IsModest fetch
    → total < 4294967296
    → length payload ≤ total
    → collect_rounds rounds total fetch (length payload) payload ≡ ok p
    → length p ≤ total
collect_rounds_bounded zero total fetch payload p m t h e = absurd (unfold collect_rounds in cc)
collect_rounds_bounded (suc rounds) total fetch payload p m t h e =
    elim (Bool-cases (remaining total (length payload) == 0)) [
      | inl z ↦ rw (← round_stops rounds total fetch (length payload) payload p z e) h
      | inr z ↦
          let l = request_len (remaining total (length payload)) in
          let again = rest_of rounds total fetch (length payload) payload in
          let (answer, q, r) =
            >>=-eq-ok (fetch (length payload) l) (accept again payload)
              (round_goes_on rounds total fetch (length payload) payload z ∙ e) in
          let modest = m (length payload) l answer.0 answer.1 q in
          let room = request_len_small total (length payload) h t in
          let fits = fits_too payload answer.1 total modest room in
          elim (accept-eq-ok again payload answer.0 answer.1 p r) [
            | inl d ↦ rw d fits
            | inr d ↦ collect_rounds_bounded rounds total fetch (payload ++ answer.1) p m t fits (
                ap (λ o. collect_rounds rounds total fetch o (payload ++ answer.1))
                  (sym (next_offset payload answer.1 total fits t))
                ∙ d)
          ]
    ]

-- Whatever statuses of 16 bits a device sends, as long as no answer has more bytes than were asked for, what is
-- read of fewer than 2^32 bytes is no longer than they are.
pub collect_member_read_payload_bounded :
    (total : ℕ) (fetch : ChunkFetcher) (p : Bytes)
    → IsModest fetch
    → total < 4294967296
    → collect_member_read_payload total fetch ≡ ok p
    → length p ≤ total
unfolding collect_member_read_payload
collect_member_read_payload_bounded zero fetch p m t e = ground arith
collect_member_read_payload_bounded (suc n) fetch p m t e =
    collect_rounds_bounded 1024 (suc n) fetch [] p m t (omega arith) e
