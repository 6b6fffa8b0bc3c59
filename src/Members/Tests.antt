-- ===== src/Members/Tests.antt =====
-- Runs of the member read, and the theorems at concrete inputs.
use gologix.Base.{List, ℕ, ◌≡◌, ◌≤◌, ◌-◌, refl, [], ◌∷◌, length, length-take, min, arith, take}
use gologix.Base.Result.{Result, ok, err, bad_status}
use gologix.Wire.{Bytes}
use gologix.Members.{ChunkFetcher, collect_member_read_payload, collect_rounds}
use gologix.Members.Payload.{Serves, answer, collect_member_read_payload-Serves}
use gologix.Members.Template.{TagInfo, MemberInfo}
use gologix.Members.Bounds.{IsModest, collect_member_read_payload_bounded}

abbrev template : Bytes
template = 1 ∷ 2 ∷ 3 ∷ 4 ∷ 5 ∷ []

-- A device that answers with two bytes at a time.
abbrev pairs : ℕ → ℕ → ℕ
pairs offset len = min 2 (min len (5 - offset))

abbrev device : ChunkFetcher
device offset len = ok (answer template offset (pairs offset len))

device-Serves : Serves 2 template device
device-Serves = record {
  served = pairs;
  not_empty = λ offset len h k. omega arith;
  at_most = λ offset len h k. omega arith;
  within = λ offset len h k. omega arith;
  at_least = λ offset len h k. omega arith;
  answers = λ offset len h k. refl;
}

refused : collect_member_read_payload 5 (λ offset len. ok (4, [])) ≡ err bad_status
unfolding collect_member_read_payload collect_rounds
refused = refl

collect_member_read_payload-Serves_example : collect_member_read_payload 5 device ≡ ok template
collect_member_read_payload-Serves_example =
    collect_member_read_payload-Serves 2 template device (omega arith) (omega arith) (omega arith)
      (omega arith) device-Serves

abbrev short_device : ChunkFetcher
short_device offset len = ok (0, take (min 3 len) (7 ∷ 8 ∷ 9 ∷ []))

take_small : (n : ℕ) (s : Bytes) → length (take n s) ≤ n
take_small n s = omega (arith, length-take n s)

short_device-IsModest : IsModest short_device
short_device-IsModest offset len status chunk e =
    rw (← chunk_of chunk e) (omega (arith, take_small (min 3 len) (7 ∷ 8 ∷ 9 ∷ [])))
  where
    chunk_of :
        (c : Bytes)
        → ◌≡◌ {A = Result (ℕ × Bytes)} (ok (0, take (min 3 len) (7 ∷ 8 ∷ 9 ∷ []))) (ok (status, c))
        → take (min 3 len) (7 ∷ 8 ∷ 9 ∷ []) ≡ c
    chunk_of c h = cc

short_run : collect_member_read_payload 5 short_device ≡ ok (7 ∷ 8 ∷ 9 ∷ [])
unfolding collect_member_read_payload collect_rounds
short_run = refl

collect_member_read_payload_bounded_example : 3 ≤ 5
collect_member_read_payload_bounded_example =
    collect_member_read_payload_bounded 5 short_device (7 ∷ 8 ∷ 9 ∷ []) short_device-IsModest
      (omega arith) short_run

-- A two-dimensional array of template 0x123: 0xC123 is 32768 + 8192 * 2 + 291.
abbrev udt_array : TagInfo
udt_array = record {
  tag_type = 0x23;
  type_info = 0xC1;
  dimension1 = 2;
  dimension2 = 3;
  dimension3 = 0;
}

abbrev members : List MemberInfo
members =
    record { info = 0; type_word = 0xC4; offset = 0 }
    ∷ record { info = 0; type_word = 0xC3; offset = 4 }
    ∷ []
