-- ===== src/Members.antt =====
-- listmembers.go: the fragmented read of a template's member list, and the words of a member.
pub mod Payload
pub mod Bounds
pub mod Template
mod Tests
use gologix.Base.{
  ℕ, zero, suc, ◌+◌, ◌-◌, ◌/◌, ◌%◌, List, [], ◌∷◌, ◌++◌, Bool, true, false, length, ltb, not, ◌||◌,
  ◌&&◌, ◌==◌, if◌then◌else◌,
}
use gologix.Base.Result.{Result, ok, err, panic, bad_status, too_many_rounds, out_of_data, ◌>>=◌}
use gologix.Wire.{Bytes}

-- The reader of one chunk: from an offset, a number of bytes; its answer is a status and a chunk.
abbrev pub ChunkFetcher : Type 0
ChunkFetcher = ℕ → ℕ → Result (ℕ × Bytes)

abbrev pub status_ok : ℕ
status_ok = 0

abbrev pub status_partial_transfer : ℕ
status_partial_transfer = 6

-- `totalBytes - offset` of two uint32.
abbrev pub remaining : ℕ → ℕ → ℕ
remaining total_bytes offset = (total_bytes + 4294967296 - offset) % 4294967296

abbrev pub request_len : ℕ → ℕ
request_len left = if ltb 0xFFFF left then 0xFFFF else left % 65536

-- `CIPStatus(hdr.Status)`: the status of a reply has 16 bits, and its low byte is looked at.
abbrev pub cip_status : ℕ → ℕ
cip_status status = status % 256

-- What a round does with the status and the chunk, given the read of the rounds behind it.
abbrev pub accept : (Bytes → Result Bytes) → Bytes → ℕ × Bytes → Result Bytes
accept again payload (status, chunk) =
    if not (cip_status status == status_ok) && not (cip_status status == status_partial_transfer)
    then err bad_status
    else if not (cip_status status == status_partial_transfer)
    then ok (payload ++ chunk)
    else if length chunk == 0
    then err out_of_data
    else again chunk

-- The loop, with the rounds that are left.
unfoldable pub collect_rounds : ℕ → ℕ → ChunkFetcher → ℕ → Bytes → Result Bytes
collect_rounds zero total_bytes fetch offset payload = err too_many_rounds
collect_rounds (suc rounds) total_bytes fetch offset payload =
    let again = λ (chunk : Bytes).
      collect_rounds rounds total_bytes fetch ((offset + length chunk) % 4294967296)
        (payload ++ chunk) in
    if remaining total_bytes offset == 0
    then ok payload
    else fetch offset (request_len (remaining total_bytes offset)) >>= accept again payload

-- collectMemberReadPayload
unfoldable pub collect_member_read_payload : ℕ → ChunkFetcher → Result Bytes
collect_member_read_payload zero fetch = ok []
collect_member_read_payload (suc n) fetch = collect_rounds 1024 (suc n) fetch 0 []
