-- ===== src/Base/Rules.antt =====
-- Sets of lemmas for the tactics.
use mathlib.Core.List.{append-nil, append_assoc}
use gologix.Base.Tests.{ltb→lt, lt→ltb, leb→le}
use native.Mathlib.Omega.{arith}

-- `omega` reads Boolean tests through these.
pub ruleset tests = (arith, ltb→lt, lt→ltb, leb→le)

pub ruleset list_laws = (append-nil, append_assoc)
