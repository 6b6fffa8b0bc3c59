-- ===== src/Pack/Moves.antt =====
-- Pack and Unpack (pack.go) move alike to where a field begins.
use gologix.Base.{
  ℕ, ◌-◌, ◌%◌, ◌≡◌, refl, sym, ap, ◌∙◌, [], ◌∷◌, ◌++◌, Bool, true, false, Option, none, some,
  length, replicate, ltb, if◌then◌else◌, length-replicate, take-append, drop-append, append-nil,
  arith,
}
use gologix.Base.Result.{ok}
use gologix.Wire.{Bytes, Reader}
use gologix.Pack.{Tag, PackState, write, pad_to, enter, skip_to, settle}
use gologix.Pack.Unpack
use gologix.Pack.Unpack.{
  UnpackState, read_some, skip, skip_to_multiple, unpack_fields, unpack_go, unpack_structs, unpack,
}

-- The reader's variables where the writer is at `st`, with no bits pending.
abbrev pub at : PackState → ℕ → UnpackState
at st k = record { n = st.pos; bitpos = 0; bitpack = k; last_a = st.last_a }

-- What `m` takes, where the writer is at `st`, is what was written from there to `st'`.
pub record Follows (m : ℕ → Reader UnpackState) (out : Bytes) (bitpos : ℕ) (st' : PackState)
    : Type 0 where
  pub p : Bytes
  pub quiet : st'.bitpos ≡ bitpos
  pub out_eq : st'.out ≡ out ++ p
  pub reads : (k : ℕ) (rest : Bytes) → m k (p ++ rest) ≡ ok (at st' k, rest)

abbrev pub Moves : (ℕ → Reader UnpackState) → PackState → PackState → Type 0
Moves m st st' = Follows m st.out st.bitpos st'

stays : (st : PackState) → Moves (λ k b. ok (at st k, b)) st st
stays st = record { p = []; quiet = refl; out_eq = sym (append-nil st.out); reads = λ k rest. refl }

if-Moves :
    {m m' : ℕ → Reader UnpackState} (st s s' : PackState) (t : Bool)
    → Moves m st s
    → Moves m' st s'
    → Moves (λ k b. if t then m k b else m' k b) st (if t then s else s')
if-Moves st s s' true h h' = h
if-Moves st s s' false h h' = h'

pub read_some-append : (p rest : Bytes) → read_some (length p) (p ++ rest) ≡ ok (p, rest)
unfolding read_some
read_some-append [] rest = refl
read_some-append (x ∷ p) rest = ground (arith, take-append p rest, drop-append p rest)

read_some-zeros :
    (n : ℕ) (rest : Bytes) → read_some n (replicate n 0 ++ rest) ≡ ok (replicate n 0, rest)
read_some-zeros n rest =
    ap (λ k. read_some k (replicate n 0 ++ rest)) (sym (length-replicate n 0))
    ∙ read_some-append (replicate n 0) rest

zeros-Moves : (n : ℕ) (st : PackState) → Moves (λ k. skip n (at st k)) st (write (replicate n 0) st)
unfolding skip write
zeros-Moves n st = record {
  p = replicate n 0;
  quiet = refl;
  out_eq = refl;
  reads = λ k rest. rw (read_some-zeros n rest, length-replicate {A = ℕ} n 0) refl;
}

pad_to-Moves : (a : ℕ) (st : PackState) → Moves (λ k. skip_to_multiple a (at st k)) st (pad_to a st)
unfolding pad_to skip_to_multiple
pad_to-Moves a st =
    if-Moves st _ st (ltb (a - st.pos % a) a) (zeros-Moves (a - st.pos % a) st) (stays st)

-- The same where the writer then keeps the field's alignment.
abbrev setting : ℕ → PackState → PackState
setting a st = record st { last_a = a }

if_set-Moves :
    {m m' : ℕ → Reader UnpackState} (st s s' : PackState) (a : ℕ) (t : Bool)
    → Moves m st (setting a s)
    → Moves m' st (setting a s')
    → Moves (λ k b. if t then m k b else m' k b) st (setting a (if t then s else s'))
if_set-Moves st s s' a true h h' = h
if_set-Moves st s s' a false h h' = h'

pub enter-Moves :
    (tag : Tag) (a : ℕ) (st : PackState)
    → Moves (λ k. Unpack.enter tag a (at st k)) st (enter tag a st)
unfolding enter skip_to pad_to write Unpack.enter skip_to_multiple
enter-Moves tag a st = go tag.no_pack tag.byte_index
  where
    go :
        (t : Bool) (i : Option ℕ)
        → Moves
            (λ k. Unpack.enter (record { no_pack = t; byte_index = i }) a (at st k))
            st
            (enter (record { no_pack = t; byte_index = i }) a st)
    go t none =
        if_set-Moves st (pad_to a st) st a (ltb st.last_a a)
          (if_set-Moves st (write (replicate (a - st.pos % a) 0) st) st a (ltb (a - st.pos % a) a)
            (zeros-Moves (a - st.pos % a) (setting a st)) (stays (setting a st)))
          (stays (setting a st))
    go t (some i) =
        if_set-Moves st (write (replicate (i - st.pos) 0) st) st a (ltb st.pos i)
          (zeros-Moves (i - st.pos) (setting a st)) (stays (setting a st))

pub settle-Moves :
    (tag : Tag) (a : ℕ) (st : PackState)
    → Moves (λ k. Unpack.settle tag a (at st k)) st (settle tag a st)
unfolding settle Unpack.settle
settle-Moves tag a st = go tag.no_pack tag.byte_index
  where
    go :
        (t : Bool) (i : Option ℕ)
        → Moves
            (λ k. Unpack.settle (record { no_pack = t; byte_index = i }) a (at st k))
            st
            (settle (record { no_pack = t; byte_index = i }) a st)
    go t none = pad_to-Moves a st
    go t (some i) = stays st
