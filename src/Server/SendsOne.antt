-- ===== src/Server/SendsOne.antt =====
-- Actions of the server (server_connected.go) that send exactly one packet, a response to a service.
use gologix.Base.{
  ℕ, ◌≡◌, ◌⊎◌, inl, inr, refl, sym, ap, ◌∙◌, List, [], ◌∷◌, ◌++◌, true, some, get_elem?, All,
  append_assoc, append-nil,
}
use gologix.Base.Result.{Result, ok, err, panic, Error}
use gologix.Wire.{Bytes, put_u16, put_u32}
use gologix.Item.{CipItem, write, serialize_items, bytes, bytes_all}
use gologix.Item.Payload.{
  Payload, text, texts, serializable, fixed_size, refused, serialize, encode, new_item,
}
use gologix.Server.Session.{Session, Action, lift, or_reply, or_reply_from, returned}
use gologix.Server.Messages.{header_bytes}
use gologix.Server.Replies.{
  as_response, packet, new_eip_header, send, send_items, send_connected_reply, send_connected_error,
}

-- A payload that Serialize takes.
abbrev pub CanEncode : Payload → Type 0
CanEncode (text x) = Unit {0}
CanEncode (texts x) = Unit {0}
CanEncode (serializable b) = Unit {0}
CanEncode (fixed_size b) = Unit {0}
CanEncode refused = ⊥

-- The bytes in front stay when more is written.
record Extends (item : CipItem) (r : Result (Unit {0}) × CipItem) : Type 0 where
  pub out : CipItem
  pub more : Bytes
  pub result : r ≡ (ok tt, out)
  pub content : out.content ≡ item.content ++ more

extend :
    (b : Bytes) (item : CipItem) (r : Result (Unit {0}) × CipItem)
    → Extends (write b item) r
    → Extends item r
unfolding write
extend b item r h = record {
  out = h.out;
  more = b ++ h.more;
  result = h.result;
  content = h.content ∙ append_assoc item.content b h.more;
}

serialize-Extends :
    (ps : List Payload) (item : CipItem) → All CanEncode ps → Extends item (serialize ps item)
unfolding serialize
serialize-Extends [] item h = record {
  out = item;
  more = [];
  result = refl;
  content = sym (append-nil item.content);
}
serialize-Extends (text x ∷ ps) item h = extend _ item _ (serialize-Extends ps (write _ item) h.1)
serialize-Extends (texts x ∷ ps) item h = extend _ item _ (serialize-Extends ps (write _ item) h.1)
serialize-Extends (serializable b ∷ ps) item h =
    extend b item _ (serialize-Extends ps (write b item) h.1)
serialize-Extends (fixed_size b ∷ ps) item h =
    extend b item _ (serialize-Extends ps (write b item) h.1)
serialize-Extends (refused ∷ ps) item h = absurd h.0

-- A packet of the command SendUnitData whose second item has the response to a service behind the sequence
-- number.
pub record RepliesTo (service : ℕ) (p : Bytes) : Type 0 where
  pub command : get_elem? p 0 ≡ some 0x70
  pub code : get_elem? p 46 ≡ some (as_response service)

module _ {W : Type 0} where
  -- One packet is sent, or the handler panics.
  abbrev pub Sent : ℕ → Session W → Result (Unit {0}) × Session W → Type 0
  Sent service s r =
      (r.0 ≡ panic) ⊎ ((p : Bytes) × (r.1.sent ≡ s.sent ++ p ∷ []) × RepliesTo service p)

  pub record SendsOne (service : ℕ) (m : Action W (Unit {0})) : Type 0 where
    pub at : (s : Session W) → s.writable ≡ true → Sent service s (m s)

  reply-RepliesTo :
      (s : Session W) (service seq conn_id x y z : ℕ) (item : CipItem) (more : Bytes)
      → item.content ≡ (put_u16 seq ++ as_response service ∷ x ∷ y ∷ z ∷ []) ++ more
      → RepliesTo service (
          packet 0x70
            (serialize_items (new_item 0xA1 (fixed_size (put_u32 conn_id) ∷ []) ∷ item ∷ []))
            s)
  unfolding packet header_bytes new_eip_header serialize_items bytes bytes_all new_item serialize
      write encode
  reply-RepliesTo s service seq conn_id x y z item more e = record {
    command = refl;
    code = rw e refl;
  }

  send_writable :
      (s : Session W) (cmd : ℕ) (msg : Bytes)
      → s.writable ≡ true
      → (send cmd msg s).1.sent ≡ s.sent ++ packet cmd msg s ∷ []
  unfolding send
  send_writable s cmd msg h = rw h refl

  send_items-SendsOne :
      (service seq conn_id x y z : ℕ) (r : Result (Unit {0}) × CipItem) (item1 : CipItem)
      → item1.content ≡ put_u16 seq ++ as_response service ∷ x ∷ y ∷ z ∷ []
      → Extends item1 r
      → SendsOne service
          (send_items {W = W} 0x70 (new_item 0xA1 (fixed_size (put_u32 conn_id) ∷ [])) r)
  unfolding send_items
  send_items-SendsOne service seq conn_id x y z r item1 e h = record {
    at = λ s w. inr (
      _,
      rw h.result (send_writable s 0x70 _ w),
      reply-RepliesTo s service seq conn_id x y z h.out h.more
          (h.content ∙ ap (λ c. c ++ h.more) e),
    );
  }

  pub SendsOne-error :
      (service seq conn_id status extended : ℕ)
      → SendsOne service (send_connected_error {W = W} service seq conn_id status extended)
  unfolding send_connected_error serialize new_item write encode
  SendsOne-error service seq conn_id status extended =
      send_items-SendsOne service seq conn_id 0 status extended _ _ refl (serialize-Extends [] _ tt)

  pub SendsOne-reply :
      (service seq conn_id : ℕ) (ps : List Payload)
      → All CanEncode ps
      → SendsOne service (send_connected_reply {W = W} service seq conn_id ps)
  unfolding send_connected_reply serialize new_item write encode
  SendsOne-reply service seq conn_id ps h =
      send_items-SendsOne service seq conn_id 0 0 0 _ _ refl (serialize-Extends ps _ h)

  -- What neither sends nor closes anything.
  pub record IsQuiet {A : Type 0} (m : Action W A) : Type 0 where
    pub sent : (s : Session W) → (m s).1.sent ≡ s.sent
    pub writable : (s : Session W) → (m s).1.writable ≡ s.writable

  pub IsQuiet-lift : {A : Type 0} (r : Result A) → IsQuiet (lift r)
  IsQuiet-lift r = record { sent = λ s. refl; writable = λ s. refl }

  moved :
      (service : ℕ) (s s' : Session W) (r : Result (Unit {0}) × Session W)
      → s'.sent ≡ s.sent
      → Sent service s' r
      → Sent service s r
  moved service s s' r e (inl h) = inl h
  moved service s s' r e (inr (p, h, k)) = inr (p, rw (← e) h, k)

  pub returned-Sent :
      (A : Type 0) (service : ℕ) (s : Session W) (e : Error) (r : Result (Unit {0}) × Session W)
      → Sent service s r
      → Sent service s (returned {A = Unit {0}} e r)
  unfolding returned
  returned-Sent A service s e (ok u, s') (inl h) = cc
  returned-Sent A service s e (ok u, s') (inr h) = inr h
  returned-Sent A service s e (err f, s') (inl h) = cc
  returned-Sent A service s e (err f, s') (inr h) = inr h
  returned-Sent A service s e (panic, s') h = h

  pub or_reply_from-Sent :
      {A : Type 0} (service : ℕ) (s : Session W) (r : Result A × Session W)
      (reply : Action W (Unit {0})) (f : A → Action W (Unit {0}))
      → r.1.sent ≡ s.sent
      → r.1.writable ≡ true
      → SendsOne service reply
      → ((a : A) → r.0 ≡ ok a → SendsOne service (f a))
      → Sent service s (or_reply_from r reply f)
  unfolding or_reply_from
  or_reply_from-Sent service s (ok a, s') reply f e w hr hf =
      moved service s s' (f a s') e ((hf a refl).at s' w)
  or_reply_from-Sent service s (err x, s') reply f e w hr hf =
      returned-Sent (Unit {0}) service s x (reply s') (moved service s s' (reply s') e (hr.at s' w))
  or_reply_from-Sent service s (panic, s') reply f e w hr hf = inl refl

  pub SendsOne-or_reply :
      {A : Type 0} (service : ℕ) (m : Action W A) (reply : Action W (Unit {0}))
      (f : A → Action W (Unit {0}))
      → IsQuiet m
      → SendsOne service reply
      → ((a : A) → SendsOne service (f a))
      → SendsOne service (or_reply m reply f)
  unfolding or_reply
  SendsOne-or_reply service m reply f q hr hf = record {
    at = λ s w.
        or_reply_from-Sent service s (m s) reply f (q.sent s) (q.writable s ∙ w) hr (λ a e. hf a);
  }
