-- ===== src/Server/Gathered.antt =====
-- connectedMulti (server_connected.go): when it succeeds, and its reply, which is the one that the client looks
-- for the results in.
use mathlib.Core.Path.{subst}
use gologix.Base.{ℕ, suc, ◌*◌, ◌%◌, ◌≡◌, ◌↔◌, refl, sym, ap, ◌∙◌, List, [], ◌∷◌, true, length}
use gologix.Base.Int.{ℤ}
use gologix.Base.Result.{ok}
use gologix.Wire.{Bytes, read_u8, read_u16, read_u32, read_full}
use gologix.Item.{CipItem}
use gologix.Server.Session.{Session, Env, item_uint16}
use gologix.Connections.{Connection, get_by_ot}
use gologix.TagMap.{resolve}
use gologix.Server.Access.{connection, provider}
use gologix.Server.Multi.{read_offsets, service_at, services, gather, connected_multi}
use gologix.Server.Keeps.{KeepsSession-service_at}
use gologix.Server.MultiSent.{
  lift-eq-ok, continue-eq-ok, if-eq-ok, chosen, replied, reply-multi_reply, read_offsets_length,
}

-- What a request of several services holds: the sequence number, the service, the path behind the number of its
-- words, and the offsets behind their number.
pub record Asks (content : Bytes) (seq : ℕ) (offsets : List ℤ) : Type 0 where
  pub service : ℕ
  pub pathlen : ℕ
  pub path : Bytes
  pub qty : ℕ
  pub rest1 : Bytes
  pub rest2 : Bytes
  pub rest3 : Bytes
  pub rest4 : Bytes
  pub rest5 : Bytes
  pub rest6 : Bytes
  pub seq_read : read_u16 content ≡ ok (seq, rest1)
  pub service_read : read_u8 rest1 ≡ ok (service, rest2)
  pub pathlen_read : read_u8 rest2 ≡ ok (pathlen, rest3)
  pub path_read : read_full (pathlen * 2 % 256) rest3 ≡ ok (path, rest4)
  pub qty_read : item_uint16 rest4 ≡ ok (qty, rest5)
  pub offsets_read : read_offsets qty rest5 ≡ ok (offsets, rest6)

-- The services at the offsets succeed one after the other, each with its result.
pub data Runs {W E : Type 0} (env : Env W E) (p : E) (content : Bytes)
    : List ℤ → Session W → List Bytes → Session W → Type 0 where
  finished : (s : Session W) → Runs env p content [] s [] s
  next :
      {o : ℤ} {os : List ℤ} {r : Bytes} {rs : List Bytes} {s s1 u : Session W}
      → service_at env p content o s ≡ (ok r, s1)
      → Runs env p content os s1 rs u
      → Runs env p content (o ∷ os) s (r ∷ rs) u

module _ {W E : Type 0} (env : Env W E) where
  services-Runs :
      (p : E) (content : Bytes) (os : List ℤ) (rs : List Bytes) (s t : Session W)
      → services env p content os s ≡ (ok rs, t)
      → Runs env p content os s rs t
  unfolding services
  services-Runs p content [] rs s t h =
      let same : [] ≡ rs = cc in let kept : s ≡ t = cc in rw (← same, ← kept) (Runs.finished s)
  services-Runs p content (o ∷ os) rs s t h =
      let (r, s1, a, b) = continue-eq-ok (service_at env p content o s) _ h in
      let (rs', s2, c, d) = continue-eq-ok (services env p content os s1) _ b in
      let same : r ∷ rs' ≡ rs = cc in
      let kept : s2 ≡ t = cc in
      rw (← same, ← kept) (Runs.next a (services-Runs p content os rs' s1 s2 c))

  Runs-services :
      {p : E} {content : Bytes} {os : List ℤ} {s : Session W} {rs : List Bytes} {t : Session W}
      → Runs env p content os s rs t
      → services env p content os s ≡ (ok rs, t)
  unfolding services
  Runs-services (Runs.finished s) = refl
  Runs-services (Runs.next a d) = rw (a, Runs-services d) refl

  Runs-length :
      {p : E} {content : Bytes} {os : List ℤ} {s : Session W} {rs : List Bytes} {t : Session W}
      → Runs env p content os s rs t
      → length rs ≡ length os
  Runs-length (Runs.finished s) = refl
  Runs-length (Runs.next a d) = ap suc (Runs-length d)

  Runs-keeps :
      {p : E} {content : Bytes} {os : List ℤ} {s : Session W} {rs : List Bytes} {t : Session W}
      → Runs env p content os s rs t
      → t ≡ record s { world = t.world }
  Runs-keeps (Runs.finished s) = refl
  Runs-keeps {p} {content} {s = s} {t = t} (Runs.next {o = o} {s1 = s1} a d) =
      let k : s1 ≡ record s { world = s1.world } =
        rw a at ((KeepsSession-service_at env p content o).at s) in
      Runs-keeps d ∙ ap (λ (x : Session W). record x { world = t.world }) k

  -- The request is answered: there is a connection and an endpoint, the request can be read, its services run one
  -- after the other, the peer takes packets, and one packet is all that is sent, over the connection's
  -- T->O ID, with the results in their order.
  pub record IsAnswered (item0 item1 : CipItem) (s t : Session W) : Type 0 where
    pub conn_id : ℕ
    pub behind : Bytes
    pub conn : Connection
    pub endpoint : E
    pub seq : ℕ
    pub offsets : List ℤ
    pub results : List Bytes
    pub served : W
    pub id_read : read_u32 item0.content ≡ ok (conn_id, behind)
    pub found : get_by_ot conn_id s.connections ≡ ok conn
    pub routed : resolve conn.path env.router ≡ ok endpoint
    pub asks : Asks item1.content seq offsets
    pub runs : Runs env endpoint item1.content offsets s results (record s { world = served })
    pub takes : s.writable ≡ true
    pub state : t ≡ replied seq conn.to results (record s { world = served })

  gather-answers :
      (endpoint : E) (seq to : ℕ) (content : Bytes) (qty : ℕ) (b : Bytes) (s t : Session W)
      → gather env endpoint seq to content qty b s ≡ (ok tt, t)
      → (offsets : List ℤ) × (rest : Bytes) × (results : List Bytes) × (w : W) × (read_offsets qty b
          ≡ ok (offsets, rest))
        × Runs env endpoint content offsets s results (record s { world = w })
        × (s.writable ≡ true)
        × (t ≡ replied seq to results (record s { world = w }))
  unfolding gather
  gather-answers endpoint seq to content qty b s t h =
      let (offsets, e, h1) = lift-eq-ok (read_offsets qty b) s _ h in
      let (results, u, f, h2) = continue-eq-ok (services env endpoint content offsets.0 s) _ h1 in
      let runs = services-Runs endpoint content offsets.0 results s u f in
      let kept : u ≡ record s { world = u.world } = Runs-keeps runs in
      let many : length results ≡ qty =
        Runs-length runs ∙ read_offsets_length qty b offsets.0 offsets.1 e in
      let (takes, state) =
        if-eq-ok u.writable (replied seq to results u) u t
          (sym (reply-multi_reply seq to qty results u many) ∙ h2) in
      (
        offsets.0,
        offsets.1,
        results,
        u.world,
        e,
        subst (Runs env endpoint content offsets.0 s results) kept runs,
        sym (ap (λ (x : Session W). x.writable) kept) ∙ takes,
        state ∙ ap (replied seq to results) kept,
      )

  answers-IsAnswered :
      (item0 item1 : CipItem) (s t : Session W)
      → connected_multi env item0 item1 s ≡ (ok tt, t)
      → IsAnswered item0 item1 s t
  unfolding connected_multi connection provider
  answers-IsAnswered item0 item1 s t h =
      let (conn_id, e0, h0) = lift-eq-ok (read_u32 item0.content) s _ h in
      let (conn, e1, h1) = lift-eq-ok (get_by_ot conn_id.0 s.connections) s _ h0 in
      let (endpoint, e2, h2) = lift-eq-ok (resolve conn.path env.router) s _ h1 in
      let (seq, e3, h3) = lift-eq-ok (read_u16 item1.content) s _ h2 in
      let (service, e4, h4) = lift-eq-ok (read_u8 seq.1) s _ h3 in
      let (pathlen, e5, h5) = lift-eq-ok (read_u8 service.1) s _ h4 in
      let (path, e6, h6) = lift-eq-ok (read_full (pathlen.0 * 2 % 256) pathlen.1) s _ h5 in
      let (qty, e7, h7) = lift-eq-ok (item_uint16 path.1) s _ h6 in
      let (offsets, rest, results, served, e8, runs, takes, state) =
        gather-answers endpoint seq.0 conn.to item1.content qty.0 qty.1 s t h7 in
      record {
        conn_id = conn_id.0;
        behind = conn_id.1;
        conn = conn;
        endpoint = endpoint;
        seq = seq.0;
        offsets = offsets;
        results = results;
        served = served;
        id_read = e0;
        found = e1;
        routed = e2;
        asks = record {
          service = service.0;
          pathlen = pathlen.0;
          path = path.0;
          qty = qty.0;
          rest1 = seq.1;
          rest2 = service.1;
          rest3 = pathlen.1;
          rest4 = path.1;
          rest5 = qty.1;
          rest6 = rest;
          seq_read = e3;
          service_read = e4;
          pathlen_read = e5;
          path_read = e6;
          qty_read = e7;
          offsets_read = e8;
        };
        runs = runs;
        takes = takes;
        state = state;
      }

  IsAnswered-answers :
      (item0 item1 : CipItem) (s t : Session W)
      → IsAnswered item0 item1 s t
      → connected_multi env item0 item1 s ≡ (ok tt, t)
  unfolding connected_multi connection provider gather
  IsAnswered-answers item0 item1 s t a =
      let asks = a.asks in
      let many : length a.results ≡ asks.qty =
        Runs-length a.runs
        ∙ read_offsets_length asks.qty asks.rest5 a.offsets asks.rest6 asks.offsets_read in
      rw
        (
          a.id_read,
          a.found,
          a.routed,
          asks.seq_read,
          asks.service_read,
          asks.pathlen_read,
          asks.path_read,
          asks.qty_read,
          asks.offsets_read,
          Runs-services a.runs,
          reply-multi_reply a.seq a.conn.to asks.qty a.results (record s { world = a.served }) many
              ∙ chosen s.writable _ _ a.takes,
          a.state,
        )
        refl

  -- connectedMulti succeeds exactly where the connection and its endpoint are found, the request can be read, each of
  -- its services succeeds in its turn and the peer takes packets. Then it has sent just one packet, an
  -- item with the T->O ID of that connection and the item `multi_reply` of the sequence number of the
  -- request and the results in the order of the services, and beside what the services did to the
  -- endpoints nothing else has changed.
  pub connected_multi-multi_reply :
      (item0 item1 : CipItem) (s t : Session W)
      → (connected_multi env item0 item1 s ≡ (ok tt, t)) ↔ IsAnswered item0 item1 s t
  connected_multi-multi_reply item0 item1 s t =
      (answers-IsAnswered item0 item1 s t, IsAnswered-answers item0 item1 s t)
