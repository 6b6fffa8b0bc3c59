-- ===== src/Server/MultiSent.antt =====
-- The packet of a reply to several services (server_connected.go), and what a successful step of a handler says.
use gologix.Base.{
  ℕ, zero, suc, ◌+◌, ◌*◌, ◌≡◌, refl, List, [], ◌∷◌, ◌++◌, Bool, true, false, length, map, arith,
  if◌then◌else◌,
}
use gologix.Base.Int.{ℤ, signed}
use gologix.Base.Result.{Result, ok, err, panic, broken_connection}
use gologix.Wire.{Bytes, put_u16, put_u32, of_u16}
use gologix.Item.{CipItem, write, serialize_items}
use gologix.Item.Payload.{fixed_size, serialize, encode, new_item}
use gologix.MultiReply.{jump_table, words, write_all, multi_reply}
use gologix.Server.Session.{Session, Action, lift, continue}
use gologix.Server.Replies.{as_response, packet, send, send_items, send_connected_reply}
use gologix.Server.Multi.{read_offsets, cons_offset}

serialize-write_all :
    (rs : List Bytes) (item : CipItem)
    → serialize (map fixed_size rs) item ≡ (ok tt, write_all rs item)
unfolding serialize write_all encode
serialize-write_all [] item = refl
serialize-write_all (r ∷ rs) item = serialize-write_all rs (write r item)

module _ {W : Type 0} where
  pub lift-eq-ok :
      {A B : Type 0} (r : Result A) (s : Session W) (f : A → Action W B) {b : B} {t : Session W}
      → continue (lift r s) f ≡ (ok b, t)
      → (a : A) × (r ≡ ok a) × (f a s ≡ (ok b, t))
  lift-eq-ok (ok a) s f h = (a, refl, h)
  lift-eq-ok (err e) s f h = cc
  lift-eq-ok panic s f h = cc

  pub continue-eq-ok :
      {A B : Type 0} (r : Result A × Session W) (f : A → Action W B) {b : B} {t : Session W}
      → continue r f ≡ (ok b, t)
      → (a : A) × (s : Session W) × (r ≡ (ok a, s)) × (f a s ≡ (ok b, t))
  continue-eq-ok (ok a, s) f h = (a, s, refl, h)
  continue-eq-ok (err e, s) f h = cc
  continue-eq-ok (panic, s) f h = cc

  pub if-eq-ok :
      (b : Bool) (s' s t : Session W)
      → ◌≡◌ {A = Result (Unit {0}) × Session W}
          (if b then (ok tt, s') else (err broken_connection, s))
          (ok tt, t)
      → (b ≡ true) × (t ≡ s')
  if-eq-ok true s' s t h = (refl, cc)
  if-eq-ok false s' s t h = cc

  pub chosen :
      (b : Bool) (x y : Result (Unit {0}) × Session W) → b ≡ true → (if b then x else y) ≡ x
  chosen b x y h = rw h refl

  -- The packet of a reply to several services.
  abbrev pub multi_packet : ℕ → ℕ → List Bytes → Session W → Bytes
  multi_packet seq to results s =
      packet 0x70
        (serialize_items
          (new_item 0xA1 (fixed_size (put_u32 to) ∷ []) ∷ multi_reply seq results ∷ []))
        s

  -- The session behind the reply.
  abbrev pub replied : ℕ → ℕ → List Bytes → Session W → Session W
  replied seq to results s = record s { sent = s.sent ++ multi_packet seq to results s ∷ [] }

  pub reply-multi_reply :
      (seq to qty : ℕ) (results : List Bytes) (s : Session W)
      → length results ≡ qty
      → send_connected_reply 0x0A seq to
          (fixed_size (put_u16 qty)
            ∷ fixed_size (words (jump_table ((qty + 1) * 2) results))
            ∷ map fixed_size results)
          s
        ≡ (if s.writable then (ok tt, replied seq to results s) else (err broken_connection, s))
  unfolding send_connected_reply send_items serialize encode multi_reply as_response new_item send
  reply-multi_reply seq to qty results s l = rw (← l, serialize-write_all results _) refl

pub read_offsets_length :
    (n : ℕ) (b : Bytes) (os : List ℤ) (r : Bytes) → read_offsets n b ≡ ok (os, r) → length os ≡ n
unfolding read_offsets cons_offset
read_offsets_length zero b os r h = ground arith
read_offsets_length (suc n) [] os r h = cc
read_offsets_length (suc n) (x ∷ []) os r h = cc
read_offsets_length (suc n) (x ∷ y ∷ b) os r h =
    longer (read_offsets n b) (read_offsets_length n b) h
  where
    longer :
        (q : Result (List ℤ × Bytes))
        → ((os : List ℤ) (r : Bytes) → q ≡ ok (os, r) → length os ≡ n)
        → cons_offset (signed 16 (of_u16 x y)) q ≡ ok (os, r)
        → length os ≡ suc n
    longer (ok (os', r')) e k = let l : length os' ≡ n = e os' r' refl in ground arith
    longer (err w) e k = cc
    longer panic e k = cc
