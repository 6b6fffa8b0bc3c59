-- ===== src/Server/Opened.antt =====
-- What a forward open leaves behind, and where it panics (server.go).
use gologix.Base.{
  ℕ, zero, suc, ◌*◌, ◌%◌, ◌≤◌, ◌<◌, ◌≡◌, ◌≢◌, ◌↔◌, ◌⊎◌, refl, List, [], ◌∷◌, ◌++◌, true, false,
  length, take, drop, arith, ◌==◌, if◌then◌else◌, Bool-cases, inl, inr, ==_iff,
}
use gologix.Base.Result.{Result, ok, err, panic, not_found}
use gologix.Wire.{Bytes, read_full}
use gologix.Item.{serialize_items}
use gologix.Item.Payload.{fixed_size, serialize, encode, new_item}
use gologix.Connections.{
  Connection, add, get_in, get_by, get_by_ot, get_by_id, close_by, close_by_id,
}
use gologix.Connections.Closing.{close_by-add}
use gologix.Server.Session.{Session, Action, Env, continue}
use gologix.Server.Messages.{ForwardOpen, ForwardClose, read_forward_open, read_forward_close}
use gologix.Server.Replies.{send, send_items, packet}
use gologix.Server.Opening.{
  route, open_reply, new_connection, draw, choose, set_ids, choose_ids, add_connection,
  open_connection, large_forward_open, set_connections, forward_close,
}

-- A connection that is not there yet is found once it is added.
get_in-append :
    (field : Connection → ℕ) (v : ℕ) (cs : List Connection) (conn : Connection)
    → get_in field v cs ≡ err not_found
    → field conn ≡ v
    → get_in field v (cs ++ conn ∷ []) ≡ ok conn
unfolding get_in
get_in-append field v [] conn h e =
    let k : (field conn == v) ≡ true = (==_iff (field conn) v).1 e in rw k refl
get_in-append field v (c ∷ cs) conn h e = elim (Bool-cases (field c == v)) [
  | inl k ↦ let x : ◌≡◌ {A = Result Connection} (ok c) (err not_found) = rw k at h in cc
  | inr k ↦ rw k (get_in-append field v cs conn (rw k at h) e)
]

-- Twice a byte, computed in a byte, is 0 for two bytes.
wrapped : (n : ℕ) → n < 256 → n * 2 % 256 ≡ 0 → (n ≡ 0) ⊎ (n ≡ 128)
wrapped n h e = elim (Bool-cases (n == 0)) [
  | inl z ↦ inl (ground arith)
  | inr z ↦ inr (ground arith)
]

long_path :
    (n : ℕ) (b : Bytes)
    → 2 ≤ n
    → n ≤ length b
    → (x : ℕ) × (y : ℕ) × (path : Bytes) × (r : Bytes) × (read_full n b ≡ ok (x ∷ y ∷ path, r))
unfolding read_full
long_path zero b h l = absurd (omega arith)
long_path (suc zero) b h l = absurd (omega arith)
long_path (suc (suc n)) [] h l = absurd (omega arith)
long_path (suc (suc n)) (x ∷ []) h l = absurd (omega arith)
long_path (suc (suc n)) (x ∷ y ∷ b) h l = (x, y, take n b, drop n b, ground arith)

module _ {W E : Type 0} (env : Env W E) where
  -- The IDs of the connection: those of the request, or random ones.
  abbrev pub chosen_to : ForwardOpen → Session W → ℕ
  chosen_to m s = if m.to == 0 then env.random s.drawn else m.to

  abbrev pub chosen_ot : ForwardOpen → Session W → ℕ
  chosen_ot m s =
      if m.ot == 0 then env.random (if m.to == 0 then suc s.drawn else s.drawn) else m.ot

  choose_ids_lem :
      (m : ForwardOpen) (s : Session W)
      → (n : ℕ) × (choose_ids env m s ≡ (
        ok (chosen_ot m s, chosen_to m s),
        record s { ot = chosen_ot m s; to = chosen_to m s; drawn = n },
      ))
  unfolding choose_ids choose draw set_ids
  choose_ids_lem m s = elim (Bool-cases (m.to == 0)) [
    | inl e ↦ elim (Bool-cases (m.ot == 0)) [
      | inl f ↦ (suc (suc s.drawn), rw (e, f) refl)
      | inr f ↦ (suc s.drawn, rw (e, f) refl)
    ]
    | inr e ↦ elim (Bool-cases (m.ot == 0)) [
      | inl f ↦ (suc s.drawn, rw (e, f) refl)
      | inr f ↦ (s.drawn, rw (e, f) refl)
    ]
  ]

  -- The packet that answers a forward open.
  abbrev pub open_packet : ForwardOpen → Session W → Bytes
  open_packet m s =
      packet 0x6F
        (serialize_items (
          new_item 0 []
          ∷ new_item 0xB2 (fixed_size (open_reply m (chosen_ot m s) (chosen_to m s)) ∷ [])
          ∷ []))
        s

  open_connection_lem :
      (m : ForwardOpen) (path : Bytes) (s : Session W)
      → s.writable ≡ true
      → (n : ℕ) × (open_connection env m path s ≡ (
        ok (new_connection m (chosen_ot m s) (chosen_to m s) path),
        record s {
          ot = chosen_ot m s;
          to = chosen_to m s;
          drawn = n;
          sent = s.sent ++ open_packet m s ∷ [];
          connections = add (new_connection m (chosen_ot m s) (chosen_to m s) path) s.connections;
        },
      ))
  unfolding open_connection add_connection send_items send packet serialize encode new_item
  open_connection_lem m path s w = let (n, e) = choose_ids_lem m s in (n, rw (e, w) refl)

  -- A large forward open with a path of two bytes or more, on a connection that takes packets and with an
  -- O->T connection ID that the server does not have yet, sends exactly its reply, and the
  -- connection is found by that ID afterwards, with the first two bytes of the path. The handler
  -- keeps the two IDs. An ID of 0 in the request is replaced by a random number.
  pub large_forward_open_opens :
      (b rest r : Bytes) (m : ForwardOpen) (x y : ℕ) (path : Bytes) (s : Session W)
      → read_forward_open true b ≡ ok (m, rest)
      → read_full (m.path_size * 2 % 256) rest ≡ ok (x ∷ y ∷ path, r)
      → s.writable ≡ true
      → get_by_ot (chosen_ot m s) s.connections ≡ err not_found
      → ((large_forward_open env b s).0 ≡ ok tt)
        × ((large_forward_open env b s).1.sent ≡ s.sent ++ open_packet m s ∷ [])
        × (get_by_ot (chosen_ot m s) (large_forward_open env b s).1.connections
            ≡ ok (new_connection m (chosen_ot m s) (chosen_to m s) (x ∷ y ∷ [])))
        × ((large_forward_open env b s).1.ot ≡ chosen_ot m s)
        × ((large_forward_open env b s).1.to ≡ chosen_to m s)
  unfolding large_forward_open route get_by_ot get_by add new_connection
  large_forward_open_opens b rest r m x y path s e f w h =
      let (n, k) = open_connection_lem m (x ∷ y ∷ []) s w in
      (
        rw (e, f, k) refl,
        rw (e, f, k) refl,
        rw (e, f, k)
            (get_in-append (λ conn. conn.ot) (chosen_ot m s) s.connections.connections _ h refl),
        rw (e, f, k) refl,
        rw (e, f, k) refl,
      )

  -- A forward close with the serial number of a connection that a large forward open has added, for a serial number
  -- that the server did not have, takes exactly that connection away again, and sends nothing.
  pub forward_close-large_forward_open :
      (b rest r : Bytes) (m : ForwardOpen) (x y : ℕ) (path : Bytes) (s : Session W)
      (c rest' skipped r' : Bytes) (n : ForwardClose)
      → read_forward_open true b ≡ ok (m, rest)
      → read_full (m.path_size * 2 % 256) rest ≡ ok (x ∷ y ∷ path, r)
      → s.writable ≡ true
      → get_by_id m.serial s.connections ≡ err not_found
      → read_forward_close c ≡ ok (n, rest')
      → n.serial ≡ m.serial
      → read_full (n.path_size * 2 % 256) rest' ≡ ok (skipped, r')
      → ((forward_close env c (large_forward_open env b s).1).0 ≡ ok tt)
        × ((forward_close env c (large_forward_open env b s).1).1.connections ≡ s.connections)
        × ((forward_close env c (large_forward_open env b s).1).1.sent
            ≡ (large_forward_open env b s).1.sent)
  unfolding large_forward_open route forward_close set_connections close_by_id get_by_id
  forward_close-large_forward_open b rest r m x y path s c rest' skipped r' n e f w h g k l =
      let (d, o) = open_connection_lem m (x ∷ y ∷ []) s w in
      let conn : Connection = new_connection m (chosen_ot m s) (chosen_to m s) (x ∷ y ∷ []) in
      let z : close_by (λ conn. conn.id) m.serial (add conn s.connections)
          ≡ ok (record conn { is_open = false }, s.connections) =
        unfold new_connection in close_by-add (λ conn. conn.id) conn s.connections h in
      (rw (e, f, o, g, k, z, l) refl, rw (e, f, o, g, k, z, l) refl, rw (e, f, o, g, k, z, l) refl)

  send_returns : (cmd : ℕ) (msg : Bytes) (s : Session W) → (send cmd msg s).0 ≢ panic
  unfolding send
  send_returns cmd msg s = elim (Bool-cases s.writable) [
    | inl e ↦ rw e (λ k. cc)
    | inr e ↦ rw e (λ k. cc)
  ]

  continue_returns :
      {A B : Type 0} (r : Result A × Session W) (f : A → Action W B)
      → r.0 ≢ panic
      → ((a : A) (s : Session W) → (f a s).0 ≢ panic)
      → (continue r f).0 ≢ panic
  continue_returns (ok a, s) f h k = k a s
  continue_returns (err e, s) f h k = λ x. cc
  continue_returns (panic, s) f h k = absurd (h refl)

  open_connection_returns :
      (m : ForwardOpen) (path : Bytes) (s : Session W) → (open_connection env m path s).0 ≢ panic
  unfolding open_connection add_connection send_items serialize encode
  open_connection_returns m path s =
      let (n, e) = choose_ids_lem m s in
      rw e (continue_returns (send 0x6F _ _) _ (send_returns 0x6F _ _) (λ u t x. cc))

  long_path-returns :
      (b rest r : Bytes) (m : ForwardOpen) (x y : ℕ) (path : Bytes) (s : Session W)
      → read_forward_open true b ≡ ok (m, rest)
      → read_full (m.path_size * 2 % 256) rest ≡ ok (x ∷ y ∷ path, r)
      → (large_forward_open env b s).0 ≢ panic
  unfolding large_forward_open route
  long_path-returns b rest r m x y path s e f =
      rw (e, f)
        (continue_returns (open_connection env m (x ∷ y ∷ []) s) _
          (open_connection_returns m (x ∷ y ∷ []) s) (λ u t z. cc))

  empty_path_panics :
      (b rest : Bytes) (m : ForwardOpen) (s : Session W)
      → read_forward_open true b ≡ ok (m, rest)
      → m.path_size * 2 % 256 ≡ 0
      → (large_forward_open env b s).0 ≡ panic
  unfolding large_forward_open route read_full
  empty_path_panics b rest m s e z = rw (e, z) refl

  -- A large forward open whose path is there panics exactly where the size of its path is 0 or 128, since twice the size
  -- is computed in a byte, and the handler takes the first two bytes of a path that is empty.
  pub large_forward_open_panics_iff :
      (b rest : Bytes) (m : ForwardOpen) (s : Session W)
      → read_forward_open true b ≡ ok (m, rest)
      → m.path_size < 256
      → m.path_size * 2 % 256 ≤ length rest
      → ((large_forward_open env b s).0 ≡ panic) ↔ ((m.path_size ≡ 0) ⊎ (m.path_size ≡ 128))
  large_forward_open_panics_iff b rest m s e h l = (
    λ p. elim (Bool-cases (m.path_size * 2 % 256 == 0)) [
      | inl z ↦ wrapped m.path_size h ((==_iff _ 0).0 z)
      | inr z ↦
          let (x, y, path, r, f) = long_path (m.path_size * 2 % 256) rest (ground arith) l in
          absurd (long_path-returns b rest r m x y path s e f p)
    ],
    λ z. empty_path_panics b rest m s e (ground arith),
  )
