-- ===== src/Connections/Closing.antt =====
-- Closing a connection takes the one that the lookup finds out of the list (server_connections.go).
use mathlib.Core.List.{Perm}
use mathlib.Core.List.Perm
use gologix.Base.{
  ℕ, zero, suc, ◌+◌, ◌≡◌, refl, ap, ◌∙◌, List, [], ◌∷◌, ◌++◌, inl, inr, some, false, length, take,
  set, get_elem?, take-append, length-append, arith, ◌==◌, Bool-cases,
}
use mathlib.Core.Option.{some-injective}
use gologix.Base.Result.{Result, ok, err, not_found}
use gologix.Connections.{
  Connection, Manager, add, get_in, get_by, last, remove_at, find_from, close_by,
}

last-Perm :
    (d : Connection) (cs : List Connection) → Perm (d ∷ cs) (last d cs ∷ take (length cs) (d ∷ cs))
unfolding last
last-Perm d [] = Perm.refl _
last-Perm d (c ∷ cs) = Perm.trans (Perm.cons d (last-Perm c cs)) (Perm.swap (last c cs) d _)

-- Taking out index `k`: the last connection takes its place.
removed : ℕ → Connection → List Connection → List Connection
removed k d cs = take (length cs) (set (d ∷ cs) k (last d cs))

remove_at-removed :
    (k : ℕ) (d : Connection) (cs : List Connection) → remove_at k (d ∷ cs) ≡ removed k d cs
unfolding remove_at removed last
remove_at-removed k d [] = refl
remove_at-removed k d (c ∷ cs) = refl

removed-Perm :
    (k : ℕ) (c d : Connection) (cs : List Connection)
    → get_elem? (d ∷ cs) k ≡ some c
    → Perm (d ∷ cs) (c ∷ removed k d cs)
unfolding removed last
removed-Perm zero c d [] h = rw (some-injective d c h) (Perm.refl _)
removed-Perm zero c d (e ∷ cs) h = rw (some-injective d c h) (Perm.cons c (last-Perm e cs))
removed-Perm (suc k) c d [] h = cc
removed-Perm (suc k) c d (e ∷ cs) h =
    Perm.trans (Perm.cons d (removed-Perm k c e cs h)) (Perm.swap c d _)

remove_at-Perm :
    (k : ℕ) (c : Connection) (cs : List Connection)
    → get_elem? cs k ≡ some c
    → Perm cs (c ∷ remove_at k cs)
remove_at-Perm k c [] h = cc
remove_at-Perm k c (d ∷ cs) h = rw (remove_at-removed k d cs) (removed-Perm k c d cs h)

-- The search from index `i` finds the first match, at its index.
find_from-get_in :
    (field : Connection → ℕ) (v i : ℕ) (cs : List Connection) (c : Connection)
    → get_in field v cs ≡ ok c
    → (k : ℕ) × (find_from field v i cs ≡ ok (i + k, c)) × (get_elem? cs k ≡ some c)
unfolding get_in find_from
find_from-get_in field v i [] c h = cc
find_from-get_in field v i (d ∷ cs) c h = elim (Bool-cases (field d == v)) [
  | inl e ↦ (0, rw e (ground arith), ground arith)
  | inr e ↦
      let (k, p, q) = find_from-get_in field v (suc i) cs c (unfold get_in in ground arith) in
      (suc k, rw e (p ∙ ap (λ n. ok (n, c)) (omega arith)), q)
]

at_start : (k : ℕ) (c : Connection) → ◌≡◌ {A = Result (ℕ × Connection)} (ok (0 + k, c)) (ok (k, c))
at_start k c = ap (λ n. ok (n, c)) (omega arith)

find_from_not_found :
    (field : Connection → ℕ) (v i : ℕ) (cs : List Connection)
    → get_in field v cs ≡ err not_found
    → find_from field v i cs ≡ err not_found
unfolding get_in find_from
find_from_not_found field v i [] h = refl
find_from_not_found field v i (d ∷ cs) h = ground (arith, find_from_not_found field v (suc i) cs)

-- Where the lookup by a field finds no connection, closing by that field gives the same error.
pub close_by_not_found :
    (field : Connection → ℕ) (v : ℕ) (cm : Manager)
    → get_by field v cm ≡ err not_found
    → close_by field v cm ≡ err not_found
unfolding get_by close_by
close_by_not_found field v cm h = rw (close_by, find_from_not_found field v 0 cm.connections h)

-- Where the lookup by a field finds a connection, closing by that field takes it out of the list and
-- marks it closed, and the other connections stay, each as often as before, in some order.
pub close_by-get_by :
    (field : Connection → ℕ) (v : ℕ) (cm : Manager) (c : Connection)
    → get_by field v cm ≡ ok c
    → (cm' : Manager) × (close_by field v cm ≡ ok (record c { is_open = false }, cm'))
      × Perm cm.connections (c ∷ cm'.connections)
unfolding get_by close_by
close_by-get_by field v cm c h =
    let (k, p, q) = find_from-get_in field v 0 cm.connections c h in
    (
      record { connections = remove_at k cm.connections },
      rw (close_by, p ∙ at_start k c),
      remove_at-Perm k c cm.connections q,
    )

find_from-append :
    (field : Connection → ℕ) (i : ℕ) (cs : List Connection) (c : Connection)
    → get_in field (field c) cs ≡ err not_found
    → find_from field (field c) i (cs ++ (c ∷ [])) ≡ ok (i + length cs, c)
unfolding get_in find_from
find_from-append field i [] c h = ground arith
find_from-append field i (d ∷ cs) c h = elim (Bool-cases (field d == field c)) [
  | inl e ↦ absurd (ground arith)
  | inr e ↦
      rw e (find_from-append field (suc i) cs c (ground arith) ∙ ap (λ n. ok (n, c)) (omega arith))
]

set_end :
    (cs : List Connection) (c v : Connection) → set (cs ++ (c ∷ [])) (length cs) v ≡ cs ++ (v ∷ [])
set_end [] c v = refl
set_end (d ∷ cs) c v = ap (λ r. d ∷ r) (set_end cs c v)

remove_at_end :
    (cs : List Connection) (c : Connection) → remove_at (length cs) (cs ++ (c ∷ [])) ≡ cs
remove_at_end [] c = unfold remove_at in refl
remove_at_end (d ∷ cs) c =
    remove_at-removed (suc (length cs)) d (cs ++ (c ∷ []))
    ∙ unfold removed in
      rw (length-append cs (c ∷ []), set_end cs c (last d (cs ++ (c ∷ []))))
        (ap (λ n. take n (d ∷ (cs ++ (last d (cs ++ (c ∷ [])) ∷ [])))) {y = length (d ∷ cs)}
            (omega arith)
          ∙ take-append (d ∷ cs) _)

-- A connection that is added where none has its value of the field, and then closed by that value,
-- leaves the list of connections just as it was, and is marked closed.
pub close_by-add :
    (field : Connection → ℕ) (c : Connection) (cm : Manager)
    → get_by field (field c) cm ≡ err not_found
    → close_by field (field c) (add c cm) ≡ ok (record c { is_open = false }, cm)
unfolding get_by add close_by
close_by-add field c cm h = rw (
  close_by,
  find_from-append field 0 cm.connections c h ∙ at_start (length cm.connections) c,
  remove_at_end cm.connections c,
)
