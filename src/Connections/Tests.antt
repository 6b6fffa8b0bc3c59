-- ===== src/Connections/Tests.antt =====
-- Runs of the connection manager, and the theorems at concrete inputs.
use mathlib.Core.List.{Perm}
use gologix.Base.{ℕ, ◌≡◌, refl, [], ◌∷◌, true, false}
use gologix.Base.Result.{ok}
use gologix.Connections.{
  Connection, Manager, get_by, close_by, close_by_ot, find_from, remove_at, get_in,
}
use gologix.Connections.Closing.{close_by-get_by}

abbrev connection : ℕ → Connection
connection n = record { id = n; ot = n; to = n; rpi = 10; path = []; is_open = true }

abbrev three : Manager
three = record { connections = connection 1 ∷ connection 2 ∷ connection 3 ∷ [] }

close_first :
    close_by_ot 1 three
    ≡ ok (
      record (connection 1) { is_open = false },
      record { connections = connection 3 ∷ connection 2 ∷ [] },
    )
unfolding close_by_ot close_by find_from remove_at
close_first = refl

close_by-get_by_example :
    (cm' : Manager) × (close_by (λ conn. conn.to) 2 three
      ≡ ok (record (connection 2) { is_open = false }, cm'))
    × Perm three.connections (connection 2 ∷ cm'.connections)
close_by-get_by_example =
    close_by-get_by (λ conn. conn.to) 2 three (connection 2) (unfold get_by get_in in refl)
