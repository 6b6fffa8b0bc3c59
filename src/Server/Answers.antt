-- ===== src/Server/Answers.antt =====
-- connectedRead (server_connected.go) answers every request: a packet with the service's response code, whatever
-- goes wrong.
use gologix.Base.{ℕ, ◌≡◌, inl, inr, refl, List, [], ◌∷◌, true, map, All, ◌==◌, Bool-cases}
use gologix.Base.Int.{ℤ, signed}
use gologix.Base.Result.{Result, ok, err, panic, Error, wrong_type}
use gologix.Wire.{Bytes}
use gologix.Item.{CipItem}
use gologix.Server.Session.{
  Session, Action, Env, Datum, Element, one, many, strings, numbers, other, fail, or_reply,
  or_reply_from, payload,
}
use gologix.Server.Access.{type_of, string_payload, string_payloads, connection, read_tag, provider}
use gologix.Server.Connected.{string_reply, read_reply, connected_read}
use gologix.Server.SendsOne.{
  CanEncode, IsQuiet, Sent, SendsOne, SendsOne-error, SendsOne-reply, IsQuiet-lift, returned-Sent,
  or_reply_from-Sent, SendsOne-or_reply,
}

-- What an endpoint gives can be encoded: Serialize takes it, so it is no []any and no value of another type
-- that binary.Write refuses.
abbrev pub Readable : Result Datum → Type 0
Readable (ok d) = CanEncode (payload d)
Readable (err e) = Unit {0}
Readable panic = Unit {0}

readable : (r : Result Datum) (d : Datum) → Readable r → r ≡ ok d → CanEncode (payload d)
readable (ok d) d' h e = subst_payload d d' e h
  where
    subst_payload :
        (d d' : Datum)
        → ◌≡◌ {A = Result Datum} (ok d) (ok d')
        → CanEncode (payload d)
        → CanEncode (payload d')
    subst_payload d d' e h = let same : d ≡ d' = cc in rw same at h
readable (err x) d' h e = cc
readable panic d' h e = cc

strings-CanEncode : (ss : List Bytes) → All CanEncode (map string_payload ss)
strings-CanEncode [] = tt
strings-CanEncode (s ∷ ss) = (tt, strings-CanEncode ss)

module _ {W E : Type 0} (env : Env W E) where
  failed-SendsOne :
      (service : ℕ) (e : Error) (reply : Action W (Unit {0})) (f : Unit {0} → Action W (Unit {0}))
      → SendsOne service reply
      → SendsOne service (or_reply (fail e) reply f)
  unfolding or_reply or_reply_from
  failed-SendsOne service e reply f h = record {
    at = λ s w. returned-Sent (Unit {0}) service s e (reply s) (h.at s w);
  }

  string_reply-SendsOne :
      (service seq to : ℕ) (d : Datum)
      → SendsOne service (string_reply env service seq to (string_payloads d))
  unfolding string_payloads string_reply
  string_reply-SendsOne service seq to (one (Element.string x)) =
      SendsOne-reply service seq to _ (tt, tt)
  string_reply-SendsOne service seq to (strings ss) =
      SendsOne-reply service seq to _ (strings-CanEncode ss)
  string_reply-SendsOne service seq to (one (Element.plain v)) =
      failed-SendsOne service wrong_type _ _ (SendsOne-error service seq to 0x09 0)
  string_reply-SendsOne service seq to (numbers n vs) =
      failed-SendsOne service wrong_type _ _ (SendsOne-error service seq to 0x09 0)
  string_reply-SendsOne service seq to (many vs) =
      failed-SendsOne service wrong_type _ _ (SendsOne-error service seq to 0x09 0)
  string_reply-SendsOne service seq to (other g p) =
      failed-SendsOne service wrong_type _ _ (SendsOne-error service seq to 0x09 0)

  read_reply-SendsOne :
      (service seq to : ℕ) (d : Datum)
      → CanEncode (payload d)
      → SendsOne service (read_reply env service seq to d)
  unfolding read_reply
  read_reply-SendsOne service seq to d h = elim (Bool-cases (type_of d == 0xFF)) [
    | inl e ↦ rw e (string_reply-SendsOne service seq to d)
    | inr e ↦ rw e (SendsOne-reply service seq to _ (tt, (tt, (h, tt))))
  ]

  IsQuiet-connection : (conn_id : ℕ) → IsQuiet (connection env conn_id)
  unfolding connection
  IsQuiet-connection conn_id = record { sent = λ s. refl; writable = λ s. refl }

  IsQuiet-provider : (path : Bytes) → IsQuiet (provider env path)
  unfolding provider
  IsQuiet-provider path = IsQuiet-lift _

  read-SendsOne :
      (service seq to : ℕ) (p : E) (tag : Bytes) (qty : ℕ) (reply : Action W (Unit {0}))
      → ((p : E) (tag : Bytes) (qty : ℤ) (w : W) → Readable (env.tag_read p tag qty w).0)
      → SendsOne service reply
      → SendsOne service (or_reply (read_tag env p tag qty) reply (read_reply env service seq to))
  unfolding or_reply read_tag
  read-SendsOne service seq to p tag qty reply h hr = record {
    at = λ s w.
        or_reply_from-Sent service s _ reply (read_reply env service seq to) refl w hr (λ d e.
          read_reply-SendsOne service seq to d (
            readable (env.tag_read p tag (signed 16 qty) s.world).0 d
              (h p tag (signed 16 qty) s.world) e));
  }

  one_packet :
      ((p : E) (tag : Bytes) (qty : ℤ) (w : W) → Readable (env.tag_read p tag qty w).0)
      → (service : ℕ) (item0 item1 : CipItem)
      → SendsOne service (connected_read env service item0 item1)
  unfolding connected_read
  one_packet h service item0 item1 =
      search
        (
          SendsOne-or_reply, SendsOne-error, IsQuiet-lift, IsQuiet-connection, IsQuiet-provider,
          read-SendsOne, h,
        )
        depth 60

  -- Where Serialize takes every value that an endpoint gives (none is a []any, or a value of another type that
  -- binary.Write refuses), connectedRead on a connection that takes packets panics, or
  -- it sends exactly one packet behind those that were sent before: one of the command SendUnitData, with
  -- the response code of the service of the request, whatever the items hold.
  pub connected_read_answers :
      ((p : E) (tag : Bytes) (qty : ℤ) (w : W) → Readable (env.tag_read p tag qty w).0)
      → (service : ℕ) (item0 item1 : CipItem) (s : Session W) → s.writable ≡ true
      → Sent service s (connected_read env service item0 item1 s)
  connected_read_answers h service item0 item1 s w = (one_packet h service item0 item1).at s w
