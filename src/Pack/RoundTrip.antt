-- ===== src/Pack/RoundTrip.antt =====
-- What Unpack (pack.go) reads of what Pack has written, where no bools are packed into bits.
use gologix.Base.{
  ℕ, ◌+◌, ◌≡◌, refl, sym, ap, ◌∙◌, [], ◌++◌, false, length, append_assoc, append-nil, arith,
}
use gologix.Base.Result.{ok}
use gologix.Wire.{Bytes}
use gologix.Pack.{
  Tag, Go, bool, bools, num, nums, str, strs, struct, structs, Fields, end, field, Structs, no_more,
  more, align, align_fields, greater, PackState, start, enter, drop_bits, settle, nest, pack_fields,
  pack_go, pack_structs, pack,
}
use gologix.Pack.Unpack.{unpack_fields, unpack_go, unpack_structs, unpack}
use gologix.Pack.Counts.{pack_counts}
use gologix.Pack.Moves.{enter-Moves, settle-Moves}
use gologix.Pack.Leaves.{
  blank, blank_fields, blank_structs, IsPlain, ArePlain, AllArePlain, align-blank,
  align_fields-blank, PacksGo, PacksFields, flush_quiet, bool-Packs, bools-Packs, num-Packs,
  nums-Packs, str-Packs, strs-Packs,
}

-- The same for the elements of an array of structures, which take `n` bytes.
pub record PacksAll (rest : Structs) (st : PackState) : Type 0 where
  pub after : PackState
  pub p : Bytes
  pub n : ℕ
  pub is_ok : pack_structs rest st ≡ ok after
  pub quiet : after.bitpos ≡ st.bitpos
  pub out_eq : after.out ≡ st.out ++ p
  pub pos_eq : after.pos ≡ st.pos + n
  pub last_eq : after.last_a ≡ st.last_a
  pub reads : (r : Bytes) → unpack_structs (blank_structs rest) (p ++ r) ≡ ok ((rest, n), r)

struct-Packs :
    (tag : Tag) (fs : Fields) (st : PackState)
    → st.bitpos ≡ 0
    → PacksFields fs start
    → PacksGo tag (struct fs) st
unfolding pack_go unpack_go blank nest align
struct-Packs tag fs st q sub =
    let a : ℕ = greater (align_fields fs) 4 in
    let s = settle-Moves tag (greater (align_fields fs) 4) st in
    let t =
      settle-Moves tag (greater (align_fields fs) 4)
        (nest sub.after (settle tag (greater (align_fields fs) 4) st)) in
    record {
      after =
          settle tag (greater (align_fields fs) 4)
            (nest sub.after (settle tag (greater (align_fields fs) 4) st));
      p = s.p ++ (sub.p ++ t.p);
      is_ok = rw (sub.is_ok, flush_quiet sub.after sub.quiet, flush_quiet st q) refl;
      quiet = t.quiet ∙ s.quiet ∙ q;
      out_eq = rw (t.out_eq, s.out_eq, sub.out_eq) (simp append_assoc);
      reads = λ k rest.
          rw
            (
              align_fields-blank fs,
              append_assoc s.p (sub.p ++ t.p) rest,
              append_assoc sub.p t.p rest,
              s.reads k (sub.p ++ (t.p ++ rest)),
              sub.reads 0 (t.p ++ rest),
              t.reads k rest,
            )
            refl;
    }

more-Packs :
    (fs : Fields) (rest : Structs) (st : PackState) (sub : PacksFields fs start)
    → PacksAll rest (nest sub.after st)
    → PacksAll (more fs rest) st
unfolding pack_structs unpack_structs blank_structs nest
more-Packs fs rest st sub all = record {
  after = all.after;
  p = sub.p ++ all.p;
  n = sub.after.pos + all.n;
  is_ok = rw (sub.is_ok, flush_quiet sub.after sub.quiet) all.is_ok;
  quiet = all.quiet;
  out_eq = rw (all.out_eq, sub.out_eq) (append_assoc st.out sub.p all.p);
  pos_eq = omega (arith, all.pos_eq);
  last_eq = all.last_eq;
  reads = λ r. rw (append_assoc sub.p all.p r, sub.reads 0 (all.p ++ r), all.reads r) refl;
}

structs-Packs :
    (tag : Tag) (fs : Fields) (rest : Structs) (st : PackState) (sub : PacksFields fs start)
    → st.bitpos ≡ 0
    → tag.no_pack ≡ false
    → PacksAll rest (nest sub.after st)
    → PacksGo tag (structs fs rest) st
unfolding pack_go unpack_go blank nest
structs-Packs tag fs rest st sub q h all =
    let total : st.pos + (sub.after.pos + all.n) ≡ all.after.pos = omega (arith, all.pos_eq) in
    let last : st.last_a ≡ all.after.last_a = sym all.last_eq in
    record {
      after = drop_bits all.after;
      p = sub.p ++ all.p;
      is_ok = rw (sub.is_ok, flush_quiet sub.after sub.quiet, all.is_ok, h) refl;
      quiet = refl;
      out_eq = rw (all.out_eq, sub.out_eq) (append_assoc st.out sub.p all.p);
      reads = λ k r.
          rw (h, append_assoc sub.p all.p r, sub.reads 0 (all.p ++ r), all.reads r)
            (λ i. ok (
              (structs fs rest, record { n = total i; bitpos = 0; bitpack = k; last_a = last i }),
              r,
            ));
    }

field-Packs :
    (tag : Tag) (v : Go) (fs : Fields) (st : PackState) (x : PacksGo tag v (enter tag (align v) st))
    → PacksFields fs x.after
    → PacksFields (field tag v fs) st
unfolding pack_fields unpack_fields blank_fields
field-Packs tag v fs st x y =
    let e = enter-Moves tag (align v) st in
    record {
      after = y.after;
      p = e.p ++ (x.p ++ y.p);
      is_ok = rw x.is_ok y.is_ok;
      quiet = y.quiet;
      out_eq = rw (y.out_eq, x.out_eq, e.out_eq) (simp append_assoc);
      reads = λ k rest.
          rw
            (
              align-blank v,
              append_assoc e.p (x.p ++ y.p) rest,
              append_assoc x.p y.p rest,
              e.reads k (x.p ++ (y.p ++ rest)),
              x.reads k (y.p ++ rest),
              y.reads k rest,
            )
            refl;
    }

mutual
  unfolding IsPlain ArePlain AllArePlain pack_structs unpack_structs blank_structs pack_fields
      unpack_fields blank_fields

  fields-Packs : (fs : Fields) (st : PackState) → st.bitpos ≡ 0 → ArePlain fs → PacksFields fs st
  fields-Packs end st q h = record {
    after = st;
    p = [];
    is_ok = refl;
    quiet = q;
    out_eq = sym (append-nil st.out);
    reads = λ k rest. refl;
  }
  fields-Packs (field tag v fs) st q h =
      let x =
        go-Packs tag v (enter tag (align v) st) ((enter-Moves tag (align v) st).quiet ∙ q) h.0 in
      field-Packs tag v fs st x (fields-Packs fs x.after x.quiet h.1)

  go-Packs :
      (tag : Tag) (v : Go) (st : PackState) → st.bitpos ≡ 0 → IsPlain tag v → PacksGo tag v st
  go-Packs tag (bool b) st q h = bool-Packs tag b st q h
  go-Packs tag (bools bs) st q h = bools-Packs tag bs st q h
  go-Packs tag (num n v) st q h = num-Packs tag n v st q h
  go-Packs tag (nums n vs) st q h = nums-Packs tag n vs st q h
  go-Packs tag (str s) st q h = str-Packs tag s st q h.0 h.1
  go-Packs tag (strs ss) st q h = strs-Packs tag ss st q h.0 h.1
  go-Packs tag (struct fs) st q h = struct-Packs tag fs st q (fields-Packs fs start refl h)
  go-Packs tag (structs fs rest) st q h =
      let sub = fields-Packs fs start refl h.1 in
      structs-Packs tag fs rest st sub q h.0 (all-Packs rest (nest sub.after st) h.2)

  all-Packs : (rest : Structs) (st : PackState) → AllArePlain rest → PacksAll rest st
  all-Packs no_more st h = record {
    after = st;
    p = [];
    n = 0;
    is_ok = refl;
    quiet = refl;
    out_eq = sym (append-nil st.out);
    pos_eq = omega arith;
    last_eq = refl;
    reads = λ r. refl;
  }
  all-Packs (more fs rest) st h =
      let sub = fields-Packs fs start refl h.0 in
      more-Packs fs rest st sub (all-Packs rest (nest sub.after st) h.1)

-- Pack succeeds on every structure without packed bools whose numbers fit their types and whose strings
-- have 82 bytes at most, and where Unpack fills a zero value of the same type from what Pack has
-- written, the result is that structure, all of the bytes are read and counted, and what follows them is left.
-- Nested structures, arrays, `nopack` and `byteIndex` tags are among the structures, but no string and
-- no array of structures with `nopack`.
pub unpack-pack :
    (fs : Fields) (rest : Bytes)
    → ArePlain fs
    → (b : Bytes) × (pack fs ≡ ok (b, length b))
      × (unpack (blank_fields fs) (b ++ rest) ≡ ok ((fs, length b), rest))
unfolding pack unpack
unpack-pack fs rest h =
    let x = fields-Packs fs start refl h in
    let whole : x.after.out ≡ x.p = x.out_eq in
    let packed : pack fs ≡ ok (x.after.out, x.after.pos) =
      rw (x.is_ok, flush_quiet x.after x.quiet) refl in
    let counted : x.after.pos ≡ length x.p =
      pack_counts fs x.after.out x.after.pos packed ∙ ap length whole in
    (x.p, packed ∙ rw (whole, counted) refl, rw (x.reads 0 rest, counted) refl)
