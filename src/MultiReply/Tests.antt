-- ===== src/MultiReply/Tests.antt =====
-- A reply to two services: a DINT that is read, and a write.
use gologix.Base.{◌≡◌, List, [], ◌∷◌, arith}
use gologix.Base.Result.{ok}
use gologix.Wire.{Bytes}
use gologix.MultiReply.{multi_reply, locate}
use gologix.MultiReply.Offsets.{suffixes, joined, locate-multi_reply}

abbrev two_results : List Bytes
two_results = (0xCC ∷ 0 ∷ 0 ∷ 0 ∷ 0xC4 ∷ 0 ∷ 7 ∷ 0 ∷ 0 ∷ 0 ∷ []) ∷ (0xCD ∷ 0 ∷ 0 ∷ 0 ∷ []) ∷ []

locate-multi_reply_example : (locate (multi_reply 5 two_results)).0 ≡ ok (suffixes two_results)
unfolding joined
locate-multi_reply_example =
    locate-multi_reply 5 two_results (omega arith) (omega arith) (omega arith)
