-- ===== src/MultiReply/Offsets.antt =====
-- The offsets of a reply of several services lead the client (read.go) to what the server (server_connected.go)
-- has put there.
use gologix.Base.{
  ℕ, suc, ◌+◌, ◌*◌, ◌%◌, ◌<◌, ◌≡◌, refl, sym, ap, ◌∙◌, List, [], ◌∷◌, ◌++◌, false, length, take,
  drop, ltb, leb, append_assoc, append-nil, length-append, length-drop, take-append, drop-append,
  le→ltb, arith, All, Bool-cases, inl, inr, leb→le,
}
use gologix.Base.Result.{Result, ok}
use gologix.Wire.{Bytes, put_u16}
use gologix.Item.{CipItem, write, bytes, byte, uint16, deserialize, next, le_u8, le_u16}
use gologix.Item.Cursor.{deserialize_enough}
use gologix.MultiReply.{jump_table, words, write_all, multi_reply, words_from, slices, locate}

-- The results, one behind the other, and what is left of them from each one on.
unfoldable pub joined : List Bytes → Bytes
joined [] = []
joined (r ∷ results) = r ++ joined results

unfoldable pub suffixes : List Bytes → List Bytes
unfolding joined
suffixes [] = []
suffixes (r ∷ results) = (r ++ joined results) ∷ suffixes results

slices-jump_table :
    (pre : Bytes) (p : ℕ) (results : List Bytes)
    → length pre ≡ p + 10
    → p + length (joined results) + 10 < 65536
    → slices (pre ++ joined results) (jump_table p results) ≡ ok (suffixes results)
unfolding slices jump_table joined suffixes
slices-jump_table pre p [] e h = refl
slices-jump_table pre p (r ∷ results) e h =
    let size = length-append r (joined results) in
    let at : (p % 65536 + 10) % 65536 ≡ length pre = omega (arith, e, size) in
    let inside : ltb (length (pre ++ (r ++ joined results))) (length pre) ≡ false =
      le→ltb (length (pre ++ (r ++ joined results))) (length pre)
        (omega (arith, length-append pre (r ++ joined results))) in
    let rest : slices (pre ++ (r ++ joined results)) (jump_table (p + length r) results)
        ≡ ok (suffixes results) =
      ap (λ b. slices b (jump_table (p + length r) results))
        (sym (append_assoc pre r (joined results)))
      ∙ slices-jump_table (pre ++ r) (p + length r) results (omega (arith, e, length-append pre r))
          (omega (arith, size)) in
    rw (at, inside, rest, drop-append pre (r ++ joined results)) refl

words_from-words : (ws : List ℕ) → All (λ w. w < 65536) ws → words_from (words ws) ≡ ws
unfolding words_from words
words_from-words [] h = refl
words_from-words (w ∷ ws) h = rw (words_from-words ws h.1) (ap (λ v. v ∷ ws) (omega arith))

jump_table_fits : (p : ℕ) (results : List Bytes) → All (λ w. w < 65536) (jump_table p results)
unfolding jump_table
jump_table_fits p [] = tt
jump_table_fits p (r ∷ results) = (omega arith, jump_table_fits (p + length r) results)

length-words-jump_table :
    (p : ℕ) (results : List Bytes) → length (words (jump_table p results)) ≡ 2 * length results
unfolding words jump_table
length-words-jump_table p [] = refl
length-words-jump_table p (r ∷ results) =
    omega (arith, length-words-jump_table (p + length r) results)

content-write_all :
    (results : List Bytes) (item : CipItem)
    → (write_all results item).content ≡ item.content ++ joined results
unfolding write_all joined write
content-write_all [] item = sym (append-nil item.content)
content-write_all (r ∷ results) item =
    content-write_all results (write r item) ∙ append_assoc item.content r (joined results)

-- A number at the position is read where what stands there begins with its bytes.
next-put :
    (k : ℕ) (decode : Bytes → Result ℕ) (item : CipItem) (v : ℕ) (front rest : Bytes)
    → length front ≡ suc k
    → drop item.position item.content ≡ front ++ rest
    → decode (front ++ rest) ≡ ok v
    → next k decode item ≡ (ok v, record item { position = item.position + suc k })
unfolding next
next-put k decode item v front rest n e d =
    let size : length (drop item.position item.content) ≡ suc k + length rest =
      ap length e ∙ length-append front rest ∙ ap (λ m. m + length rest) n in
    elim (Bool-cases (leb (length item.content) (item.position + k))) [
      | inl short ↦ absurd (
          omega (
            arith,
            size,
            length-drop item.position item.content,
            leb→le (length item.content) (item.position + k) short,
          ))
      | inr enough ↦ rw (enough, e, d) refl
    ]

uint16-put :
    (item : CipItem) (v : ℕ) (rest : Bytes)
    → v < 65536
    → drop item.position item.content ≡ put_u16 v ++ rest
    → uint16 item ≡ (ok v, record item { position = item.position + 2 })
unfolding uint16
uint16-put item v rest h e = next-put 1 le_u16 item v (put_u16 v) rest refl e (ap ok (omega arith))

byte-put :
    (item : CipItem) (b : ℕ) (rest : Bytes)
    → drop item.position item.content ≡ b ∷ rest
    → byte item ≡ (ok b, record item { position = item.position + 1 })
unfolding byte
byte-put item b rest e = next-put 0 le_u8 item b (b ∷ []) rest refl e refl

-- The content of the reply.
body : ℕ → List Bytes → Bytes
body seq results =
    put_u16 seq
    ++ (0x8A
        ∷ 0
        ∷ 0
        ∷ 0
        ∷ (put_u16 (length results)
            ++ (words (jump_table ((length results + 1) * 2) results) ++ joined results)))

content-multi_reply :
    (seq : ℕ) (results : List Bytes) → (multi_reply seq results).content ≡ body seq results
unfolding multi_reply body write
content-multi_reply seq results = content-write_all results _ ∙ simp append_assoc

-- The reply with the reader at `p`.
abbrev reply_at : ℕ → ℕ → ℕ → List Bytes → ℕ → CipItem
reply_at i hl seq results p = record {
  id = i;
  header_length = hl;
  content = body seq results;
  position = p;
}

table_read :
    (i hl seq : ℕ) (results : List Bytes)
    → 0 < length results
    → deserialize (2 * length results) (reply_at i hl seq results 8) ≡ (
      ok (words (jump_table ((length results + 1) * 2) results)),
      reply_at i hl seq results (8 + 2 * length results),
    )
unfolding body
table_read i hl seq results n =
    let table = words (jump_table ((length results + 1) * 2) results) in
    let size = length-words-jump_table ((length results + 1) * 2) results in
    let front : take (2 * length results) (table ++ joined results) ≡ table =
      ap (λ k. take k (table ++ joined results)) (sym size) ∙ take-append table (joined results) in
    deserialize_enough (2 * length results) (reply_at i hl seq results 8)
      (omega (arith, size, length-append table (joined results))) (omega (arith, n))
    ∙ ap (λ b. (ok b, reply_at i hl seq results (8 + 2 * length results))) front

results_found :
    (i hl seq : ℕ) (results : List Bytes)
    → 2 * length results + length (joined results) + 12 < 65536
    → slices
        (bytes (reply_at i hl seq results (8 + 2 * length results)))
        (jump_table ((length results + 1) * 2) results)
      ≡ ok (suffixes results)
unfolding bytes body
results_found i hl seq results h =
    let table = words (jump_table ((length results + 1) * 2) results) in
    let size = length-words-jump_table ((length results + 1) * 2) results in
    slices-jump_table
      (put_u16 i
        ++ (put_u16 hl
            ++ (put_u16 seq ++ (0x8A ∷ 0 ∷ 0 ∷ 0 ∷ (put_u16 (length results) ++ table)))))
      ((length results + 1) * 2) results (omega (arith, size)) (omega arith)

located :
    (i hl seq : ℕ) (results : List Bytes)
    → seq < 65536
    → 0 < length results
    → 2 * length results + length (joined results) + 12 < 65536
    → (locate (reply_at i hl seq results 0)).0 ≡ ok (suffixes results)
unfolding locate body
located i hl seq results s n h =
    let fits = jump_table_fits ((length results + 1) * 2) results in
    rw
      (
        uint16-put (reply_at i hl seq results 0) seq _ s refl,
        byte-put (reply_at i hl seq results 2) 0x8A _ refl,
        byte-put (reply_at i hl seq results 3) 0 _ refl,
        uint16-put (reply_at i hl seq results 4) 0 _ (omega arith) refl,
        uint16-put (reply_at i hl seq results 6) (length results) _ (omega arith) refl,
        table_read i hl seq results n,
        words_from-words (jump_table ((length results + 1) * 2) results) fits,
      )
      (results_found i hl seq results h)

header-write_all :
    (results : List Bytes) (item : CipItem)
    → ((write_all results item).id ≡ item.id) × ((write_all results item).position ≡ item.position)
unfolding write_all write
header-write_all [] item = (refl, refl)
header-write_all (r ∷ results) item = header-write_all results (write r item)

-- Of a reply with one result or more that fits a uint16 with its ten bytes of headers, read from its start,
-- what the client finds at the offset of each result begins with this result, and goes on with the later ones.
pub locate-multi_reply :
    (seq : ℕ) (results : List Bytes)
    → seq < 65536
    → 0 < length results
    → 2 * length results + length (joined results) + 12 < 65536
    → (locate (multi_reply seq results)).0 ≡ ok (suffixes results)
unfolding multi_reply write
locate-multi_reply seq results s n h =
    let x = multi_reply seq results in
    let content_eq : x.content ≡ body seq results = content-multi_reply seq results in
    let start_eq : x.position ≡ 0 = (header-write_all results _).1 in
    let same : multi_reply seq results ≡ reply_at x.id x.header_length seq results 0 = λ i. record {
      id = x.id;
      header_length = x.header_length;
      content = content_eq i;
      position = start_eq i;
    } in
    ap (λ item. (locate item).0) same ∙ located x.id x.header_length seq results s n h
