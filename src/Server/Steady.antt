-- ===== src/Server/Steady.antt =====
-- What a handler leaves alone, and the packets that it adds (server.go): one rule for each way to build an
-- action.
pub mod Replies
pub mod Connected
pub mod Unconnected
pub mod Opening
pub mod Serve
use gologix.Base.{
  ℕ, ◌+◌, ◌-◌, ◌≤◌, ◌≡◌, refl, sym, ap, ◌∙◌, List, [], ◌∷◌, ◌++◌, Bool, true, false, Option, none,
  some, length, take, drop, All, if◌then◌else◌, append-nil, append_assoc, arith, length-append,
}
use gologix.Base.Result.{Result, ok, err, panic, Error, broken_connection}
use gologix.Wire.{Bytes, Reader, put_u16, put_u32, put_u64}
use gologix.Wire.Shrinks.{Shrinks}
use gologix.Item.{CipItem}
use gologix.Server.Session.{
  Session, Action, pure, fail, lift, receive, consumed, continue, or_reply, or_reply_from, returned,
  gets, as_value, tried, ◌>>=◌,
}
use gologix.Server.Messages.{header_bytes}
use gologix.Server.Replies.{send, packet, new_eip_header, send_items}
use native.Mathlib.Nat.{le_trans, le_refl}

-- A packet that answers a request: its header repeats the context, and counts the bytes behind the header.
pub record IsAnswer (context : ℕ) (p : Bytes) : Type 0 where
  pub echoes : take 8 (drop 12 p) ≡ put_u64 context
  pub counts : take 2 (drop 2 p) ≡ put_u16 (length p - 24)

pub All-append {ℓ} :
    {A : Type 0} (P : A → Type ℓ) (xs ys : List A) → All P xs → All P ys → All P (xs ++ ys)
All-append P [] ys h k = k
All-append P (x ∷ xs) ys (h, hs) k = (h, All-append P xs ys hs k)

same_context : (c d : ℕ) (ps : List Bytes) → c ≡ d → All (IsAnswer c) ps → All (IsAnswer d) ps
same_context c d ps e h = rw e at h

module _ {W : Type 0} where
  -- What was sent stays sent, in front of answers; no input comes back.
  pub record Follows (s s' : Session W) : Type 0 where
    pub input_le : length s'.input ≤ length s.input
    pub writable_kept : s'.writable ≡ s.writable
    pub context_kept : s'.context ≡ s.context
    pub added : List Bytes
    pub sent_grows : s'.sent ≡ s.sent ++ added
    pub answers : All (IsAnswer s.context) added

  pub record IsSteady {A : Type 0} (m : Action W A) : Type 0 where
    pub at : (s : Session W) → Follows s (m s).1

  -- A change of other fields.
  pub Follows-same :
      (s s' : Session W)
      → s'.input ≡ s.input
      → s'.writable ≡ s.writable
      → s'.context ≡ s.context
      → s'.sent ≡ s.sent
      → Follows s s'
  Follows-same s s' i w c e = record {
    input_le = omega (arith, ap (λ (b : Bytes). length b) i);
    writable_kept = w;
    context_kept = c;
    added = [];
    sent_grows = e ∙ sym (append-nil s.sent);
    answers = tt;
  }

  pub Follows-refl : (s : Session W) → Follows s s
  Follows-refl s = Follows-same s s refl refl refl refl

  pub Follows-trans : (r s t : Session W) → Follows r s → Follows s t → Follows r t
  Follows-trans r s t h k = record {
    input_le = le_trans k.input_le h.input_le;
    writable_kept = k.writable_kept ∙ h.writable_kept;
    context_kept = k.context_kept ∙ h.context_kept;
    added = h.added ++ k.added;
    sent_grows =
        k.sent_grows ∙ ap (λ x. x ++ k.added) h.sent_grows ∙ append_assoc r.sent h.added k.added;
    answers =
        All-append (IsAnswer r.context) h.added k.added h.answers
          (same_context s.context r.context k.added h.context_kept k.answers);
  }

  pub IsSteady-lift : {A : Type 0} (r : Result A) → IsSteady (lift r)
  IsSteady-lift r = record { at = λ s. Follows-refl s }

  pub IsSteady-fail : {A : Type 0} (e : Error) → IsSteady (fail {A = A} e)
  IsSteady-fail e = record { at = λ s. Follows-refl s }

  pub IsSteady-pure : {A : Type 0} (a : A) → IsSteady (pure a)
  IsSteady-pure a = record { at = λ s. Follows-refl s }

  pub IsSteady-gets : {A : Type 0} (f : Session W → A) → IsSteady (gets f)
  IsSteady-gets f = record { at = λ s. Follows-refl s }

  as_value-Follows :
      (A : Type 0) (s : Session W) (r : Result A × Session W)
      → Follows s r.1
      → Follows s (as_value r).1
  unfolding as_value
  as_value-Follows A s (ok a, s') h = h
  as_value-Follows A s (err e, s') h = h
  as_value-Follows A s (panic, s') h = h

  pub IsSteady-tried : {A : Type 0} (m : Action W A) → IsSteady m → IsSteady (tried m)
  unfolding tried
  IsSteady-tried {A} m h = record { at = λ s. as_value-Follows A s (m s) (h.at s) }

  continue-Follows :
      {A B : Type 0} (s : Session W) (r : Result A × Session W) (f : A → Action W B)
      → Follows s r.1
      → ((a : A) → IsSteady (f a))
      → Follows s (continue r f).1
  continue-Follows s (ok a, s') f h hf = Follows-trans s s' (f a s').1 h ((hf a).at s')
  continue-Follows s (err e, s') f h hf = h
  continue-Follows s (panic, s') f h hf = h

  pub IsSteady-bind :
      {A B : Type 0} (m : Action W A) (f : A → Action W B)
      → IsSteady m
      → ((a : A) → IsSteady (f a))
      → IsSteady (m >>= f)
  IsSteady-bind m f h hf = record { at = λ s. continue-Follows s (m s) f (h.at s) hf }

  pub IsSteady-if :
      {A : Type 0} (t : Bool) (m n : Action W A)
      → IsSteady m
      → IsSteady n
      → IsSteady (if t then m else n)
  IsSteady-if true m n h k = h
  IsSteady-if false m n h k = k

  returned-Follows :
      (A : Type 0) (e : Error) (s : Session W) (r : Result (Unit {0}) × Session W)
      → Follows s r.1
      → Follows s (returned {A = A} e r).1
  unfolding returned
  returned-Follows A e s (ok u, s') h = h
  returned-Follows A e s (err f, s') h = h
  returned-Follows A e s (panic, s') h = h

  or_reply_from-Follows :
      {A : Type 0} (s : Session W) (r : Result A × Session W) (reply : Action W (Unit {0}))
      (f : A → Action W (Unit {0}))
      → Follows s r.1
      → IsSteady reply
      → ((a : A) → IsSteady (f a))
      → Follows s (or_reply_from r reply f).1
  unfolding or_reply_from
  or_reply_from-Follows s (ok a, s') reply f h hr hf =
      Follows-trans s s' (f a s').1 h ((hf a).at s')
  or_reply_from-Follows s (err e, s') reply f h hr hf =
      returned-Follows (Unit {0}) e s (reply s') (Follows-trans s s' (reply s').1 h (hr.at s'))
  or_reply_from-Follows s (panic, s') reply f h hr hf = h

  pub IsSteady-or_reply :
      {A : Type 0} (m : Action W A) (reply : Action W (Unit {0})) (f : A → Action W (Unit {0}))
      → IsSteady m
      → IsSteady reply
      → ((a : A) → IsSteady (f a))
      → IsSteady (or_reply m reply f)
  unfolding or_reply
  IsSteady-or_reply m reply f h hr hf = record {
    at = λ s. or_reply_from-Follows s (m s) reply f (h.at s) hr hf;
  }

  consumed-Follows :
      {A : Type 0} (s : Session W) (r : Result (A × Bytes))
      → ((a : A) (rest : Bytes) → r ≡ ok (a, rest) → length rest ≤ length s.input)
      → Follows s (consumed r s).1
  unfolding consumed
  consumed-Follows s (ok (a, rest)) h = record {
    input_le = h a rest refl;
    writable_kept = refl;
    context_kept = refl;
    added = [];
    sent_grows = sym (append-nil s.sent);
    answers = tt;
  }
  consumed-Follows s (err e) h = Follows-refl s
  consumed-Follows s panic h = Follows-refl s

  pub IsSteady-receive : {A : Type 0} (m : Reader A) → Shrinks m → IsSteady (receive m)
  unfolding receive
  IsSteady-receive m h = record {
    at = λ s. consumed-Follows s (m s.input) (λ a rest e. h.at s.input a rest e);
  }

  pub packet-IsAnswer :
      (cmd : ℕ) (msg : Bytes) (s : Session W) → IsAnswer s.context (packet cmd msg s)
  unfolding packet header_bytes new_eip_header
  packet-IsAnswer cmd msg s = record { echoes = refl; counts = ground arith }

  sent_packet :
      (s : Session W) (p : Bytes)
      → IsAnswer s.context p
      → Follows s (record s { sent = s.sent ++ p ∷ [] })
  sent_packet s p h = record {
    input_le = le_refl (length s.input);
    writable_kept = refl;
    context_kept = refl;
    added = p ∷ [];
    sent_grows = refl;
    answers = (h, tt);
  }

  send_if-Follows :
      (b : Bool) (s : Session W) (p : Bytes)
      → IsAnswer s.context p
      → Follows s
          (if◌then◌else◌ {A = Result (Unit {0}) × Session W} b
            (ok tt, record s { sent = s.sent ++ p ∷ [] })
            (err broken_connection, s)).1
  send_if-Follows true s p h = sent_packet s p h
  send_if-Follows false s p h = Follows-refl s

  pub IsSteady-send : (cmd : ℕ) (msg : Bytes) → IsSteady (send {W = W} cmd msg)
  unfolding send
  IsSteady-send cmd msg = record {
    at = λ s. send_if-Follows s.writable s (packet cmd msg s) (packet-IsAnswer cmd msg s);
  }

  pub IsSteady-send_items :
      (cmd : ℕ) (item0 : CipItem) (r : Result (Unit {0}) × CipItem)
      → IsSteady (send_items {W = W} cmd item0 r)
  unfolding send_items
  IsSteady-send_items cmd item0 (ok u, item1) = IsSteady-send cmd _
  IsSteady-send_items cmd item0 (err e, item1) = IsSteady-lift (err e)
  IsSteady-send_items cmd item0 (panic, item1) = IsSteady-lift panic

pub ruleset steady_rules = (
  IsSteady-lift, IsSteady-gets, IsSteady-tried, IsSteady-fail, IsSteady-pure, IsSteady-bind,
  IsSteady-if, IsSteady-or_reply,
)
