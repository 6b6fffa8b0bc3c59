-- ===== src/Server/Ends.antt =====
-- The loop of a connection (`serve` of server.go) ends, and each of its rounds answers one request.
use gologix.Base.{
  ℕ, zero, suc, ◌≤◌, ◌<◌, ◌≡◌, ◌≢◌, refl, ◌∙◌, List, [], ◌∷◌, ◌++◌, some, length, arith, All,
}
use gologix.Base.Result.{Result, ok, err, panic, Error}
use gologix.Wire.{Bytes, Reader, read_u16, read_u32, read_u64, pure, ◌>>=◌}
use gologix.Wire.Bind.{bind-eq-ok}
use gologix.Wire.Shrinks.{Shrinks, shrinks_rules}
use gologix.Server.Session.{Session, Env, receive, consumed}
use gologix.Server.Messages.{EipHeader, read_header}
use gologix.Server.Serve.{set_context, round, Outcome, next_round, rounds}
use gologix.Server.Steady.{IsAnswer}
use gologix.Server.Steady.Serve.{IsSteady-dispatch}

read_u16-lt : (b : Bytes) (v : ℕ) (r : Bytes) → read_u16 b ≡ ok (v, r) → length r < length b
unfolding read_u16
read_u16-lt [] v r e = cc
read_u16-lt (a ∷ []) v r e = cc
read_u16-lt (a ∷ c ∷ b) v r e = ground arith

-- The fields behind the command.
header_rest : ℕ → Reader EipHeader
header_rest command = do
  len ← read_u16
  session_handle ← read_u32
  status ← read_u32
  context ← read_u64
  options ← read_u32
  pure (record {
    command = command;
    length = len;
    session_handle = session_handle;
    status = status;
    context = context;
    options = options;
  })

Shrinks-header_rest : (command : ℕ) → Shrinks (header_rest command)
unfolding header_rest
Shrinks-header_rest command = search shrinks_rules depth 60

-- A header is not empty.
read_header-lt :
    (b : Bytes) (h : EipHeader) (r : Bytes) → read_header b ≡ ok (h, r) → length r < length b
unfolding read_header header_rest
read_header-lt b h r e =
    let (command, r', p, q) = bind-eq-ok (read_u16 b) header_rest e in
    let less : length r' < length b = read_u16-lt b command r' p in
    let more : length r ≤ length r' = (Shrinks-header_rest command).at r' h r q in omega arith

module _ {W E : Type 0} (env : Env W E) where
  -- Where a header of a request can be read, its round adds packets that all repeat the context of the header and
  -- count their bytes behind the first 24, it keeps what was sent before in front of them, and it
  -- leaves less input.
  pub round_answers :
      (s : Session W) (hdr : EipHeader) (rest : Bytes)
      → read_header s.input ≡ ok (hdr, rest)
      → (added : List Bytes) × ((round env s).1.sent ≡ s.sent ++ added)
        × All (IsAnswer hdr.context) added
        × (length (round env s).1.input < length s.input)
  unfolding round receive consumed set_context
  round_answers s hdr rest e =
      let f = (IsSteady-dispatch env hdr).at (record s { input = rest; context = hdr.context }) in
      let less : length rest < length s.input = read_header-lt s.input hdr rest e in
      (f.added, rw e f.sent_grows, f.answers, rw e (omega (arith, f.input_le)))

  -- There is an outcome, and it is no success.
  abbrev Ends : Outcome W → Type 0
  Ends o =
      (r : Result (Unit {0})) × (t : Session W) × (o ≡ some (r, t)) × ((u : Unit {0}) → r ≢ ok u)

  no_header : (s : Session W) (w : Error) → read_header s.input ≡ err w → round env s ≡ (err w, s)
  unfolding round receive consumed
  no_header s w e = rw e refl

  header_panic : (s : Session W) → read_header s.input ≡ panic → round env s ≡ (panic, s)
  unfolding round receive consumed
  header_panic s e = rw e refl

  -- A round that returns no error has read a header.
  round-lt :
      (s : Session W) (r : Result (EipHeader × Bytes)) (u : Unit {0})
      → read_header s.input ≡ r
      → (round env s).0 ≡ ok u
      → length (round env s).1.input < length s.input
  round-lt s (ok (hdr, rest)) u e h = (round_answers s hdr rest e).3
  round-lt s (err w) u e h =
      let k : ◌≡◌ {A = Result (Unit {0})} (err w) (ok u) = rw (no_header s w e) at h in cc
  round-lt s panic u e h =
      let k : ◌≡◌ {A = Result (Unit {0})} panic (ok u) = rw (header_panic s e) at h in cc

  next_round-Ends :
      (again : Session W → Outcome W) (r : Result (Unit {0}) × Session W)
      → ((u : Unit {0}) → r.0 ≡ ok u → Ends (again r.1))
      → Ends (next_round again r)
  unfolding next_round
  next_round-Ends again (ok u, s) h = h u refl
  next_round-Ends again (err e, s) h = (err e, s, refl, λ u k. cc)
  next_round-Ends again (panic, s) h = (panic, s, refl, λ u k. cc)

  rounds-Ends : (f : ℕ) (s : Session W) → length s.input < f → Ends (rounds env f s)
  unfolding rounds
  rounds-Ends zero s h = absurd (omega arith)
  rounds-Ends (suc f) s h = next_round-Ends (rounds env f) (round env s) λ u e.
      let less : length (round env s).1.input < length s.input =
        round-lt s (read_header s.input) u refl e in
      rounds-Ends f (round env s).1 (omega arith)

  next_round-same :
      (m n : Session W → Outcome W) (r : Result (Unit {0}) × Session W)
      → ((u : Unit {0}) → r.0 ≡ ok u → m r.1 ≡ n r.1)
      → next_round m r ≡ next_round n r
  unfolding next_round
  next_round-same m n (ok u, s) h = h u refl
  next_round-same m n (err e, s) h = refl
  next_round-same m n (panic, s) h = refl

  same_rounds :
      (f g : ℕ) (s : Session W)
      → length s.input < f
      → length s.input < g
      → rounds env f s ≡ rounds env g s
  unfolding rounds
  same_rounds zero g s h k = absurd (omega arith)
  same_rounds (suc f) zero s h k = absurd (omega arith)
  same_rounds (suc f) (suc g) s h k =
      next_round-same (rounds env f) (rounds env g) (round env s) λ u e.
        let less : length (round env s).1.input < length s.input =
          round-lt s (read_header s.input) u refl e in
        same_rounds f g (round env s).1 (omega arith) (omega arith)

  -- The loop of a connection ends: where it may take more rounds than there are bytes of input, it has an outcome
  -- within them, which is an error or a panic and no success. More rounds do not change it.
  pub rounds_end :
      (f : ℕ) (s : Session W)
      → length s.input < f
      → (r : Result (Unit {0})) × (t : Session W) × (rounds env f s ≡ some (r, t))
        × ((u : Unit {0}) → r ≢ ok u)
        × ((g : ℕ) → length s.input < g → rounds env g s ≡ some (r, t))
  rounds_end f s h =
      let (r, t, e, fails) = rounds-Ends f s h in (r, t, e, fails, λ g k. same_rounds g f s k h ∙ e)
