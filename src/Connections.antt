-- ===== src/Connections.antt =====
-- server_connections.go: serverConnection and serverConnectionManager. The list holds pointers; a
-- connection is known here by its fields, and closing one gives the object that leaves the list as
-- well, because it is marked closed for whoever still holds it. The lock makes each method one step.

pub mod Closing
mod Tests
use gologix.Base.{
  ℕ, suc, ◌-◌, List, [], ◌∷◌, ◌++◌, Bool, true, false, length, take, set, ◌==◌, if◌then◌else◌,
}
use gologix.Base.Result.{Result, ok, err, panic, not_found}
use gologix.Wire.{Bytes}

pub record Connection : Type 0 where
  pub id : ℕ
  pub ot : ℕ
  pub to : ℕ
  pub rpi : ℕ
  pub path : Bytes
  pub is_open : Bool

pub record Manager : Type 0 where
  pub connections : List Connection

unfoldable pub init : Manager
init = record { connections = [] }

unfoldable pub add : Connection → Manager → Manager
add conn cm = record { connections = cm.connections ++ (conn ∷ []) }

-- The three lookups and the three closings differ in the field they compare.
unfoldable pub get_in : (Connection → ℕ) → ℕ → List Connection → Result Connection
get_in field v [] = err not_found
get_in field v (conn ∷ cs) = if field conn == v then ok conn else get_in field v cs

unfoldable pub get_by : (Connection → ℕ) → ℕ → Manager → Result Connection
get_by field v cm = get_in field v cm.connections

unfoldable pub get_by_id : ℕ → Manager → Result Connection
get_by_id = get_by (λ conn. conn.id)

unfoldable pub get_by_ot : ℕ → Manager → Result Connection
get_by_ot = get_by (λ conn. conn.ot)

unfoldable pub get_by_to : ℕ → Manager → Result Connection
get_by_to = get_by (λ conn. conn.to)

-- `conns[len(conns)-1]`, for a list with `conn` in front.
unfoldable pub last : Connection → List Connection → Connection
last conn [] = conn
last conn (c ∷ cs) = last c cs

-- `conns[i] = conns[len(conns)-1]; conns = conns[:len(conns)-1]`, or a new list where there is one.
unfoldable pub remove_at : ℕ → List Connection → List Connection
unfolding last
remove_at i [] = []
remove_at i (c ∷ []) = []
remove_at i (c ∷ d ∷ cs) = take (suc (length cs)) (set (c ∷ d ∷ cs) i (last d cs))

-- The search of a closing from index `i` on: the index and the connection it finds.
unfoldable pub find_from : (Connection → ℕ) → ℕ → ℕ → List Connection → Result (ℕ × Connection)
find_from field v i [] = err not_found
find_from field v i (conn ∷ cs) =
    if field conn == v then ok (i, conn) else find_from field v (suc i) cs

unfoldable pub close_by : (Connection → ℕ) → ℕ → Manager → Result (Connection × Manager)
close_by field v cm = elim (find_from field v 0 cm.connections) [
  | ok (i, conn) ↦
      ok (record conn { is_open = false }, record { connections = remove_at i cm.connections })
  | err e ↦ err e
  | panic ↦ panic
]

unfoldable pub close_by_id : ℕ → Manager → Result (Connection × Manager)
close_by_id = close_by (λ conn. conn.id)

unfoldable pub close_by_ot : ℕ → Manager → Result (Connection × Manager)
close_by_ot = close_by (λ conn. conn.ot)

unfoldable pub close_by_to : ℕ → Manager → Result (Connection × Manager)
close_by_to = close_by (λ conn. conn.to)
