-- ===== src/Subscription/PerTag.antt =====
-- What a subscription to several tags (tag_subscribe.go) sends of one of them.
use gologix.Base.{
  ℕ, ◌+◌, ◌≤◌, ◌<◌, ◌≡◌, refl, sym, ◌∙◌, List, [], ◌∷◌, ◌++◌, Bool, true, false, Option, none, some,
  length, ltb, if◌then◌else◌, append_assoc, append-nil, length-append, arith, lt→ltb, Bool-cases,
  Option-cases, inl, inr,
}
use gologix.Wire.{Bytes}
use gologix.TagMap.{same_text, lookup, insert}
use gologix.TagMap.Lookup.{lookup-insert, same_text_refl, same_text_sound}
use gologix.Subscription.{offer}
use gologix.Subscription.Several.{TagMultiSubscription, on_tag, on_tags}
use gologix.Subscription.Changes.{changes}

-- The values of one tag among updates.
unfoldable pub only {ℓ} : {A : Type ℓ} → Bytes → List (Bytes × A) → List A
only k [] = []
only k ((j, a) ∷ rest) = let later = only k rest in if same_text j k then a ∷ later else later

pub only-append {ℓ} :
    {A : Type ℓ} (k : Bytes) (xs ys : List (Bytes × A)) → only k (xs ++ ys) ≡ only k xs ++ only k ys
unfolding only
only-append k [] ys = refl
only-append k ((j, a) ∷ xs) ys = elim (Bool-cases (same_text j k)) [
  | inl e ↦ rw (e, only-append k xs ys) refl
  | inr e ↦ rw (e, only-append k xs ys) refl
]

module _ {A : Type 0} (deep_equal : A → A → Bool) where
  -- What has been sent of a tag, and what is still to be sent of its reads.
  abbrev pub due_of : Bytes → List A → TagMultiSubscription A → List A
  due_of k reads sub =
      only k sub.values ++ changes deep_equal sub.emit_initial (lookup k sub.prev) reads

  only_snoc :
      (k tag : Bytes) (cur : A) (xs : List (Bytes × A))
      → only k (xs ++ ((tag, cur) ∷ [])) ≡ only k xs ++ (if same_text tag k then cur ∷ [] else [])
  unfolding only
  only_snoc k tag cur xs = only-append k xs ((tag, cur) ∷ [])

  -- The three outcomes of a read of a tag: it is new, it is the same, it has changed.
  on_tag-new :
      (tag : Bytes) (cur : A) (sub : TagMultiSubscription A)
      → lookup tag sub.prev ≡ none
      → on_tag deep_equal tag cur sub ≡ record sub {
        prev = insert tag cur sub.prev;
        values = if sub.emit_initial then offer (tag, cur) sub.value_cap sub.values else sub.values;
      }
  unfolding on_tag
  on_tag-new tag cur sub e = rw (on_tag, e) refl

  on_tag-same :
      (tag : Bytes) (cur old : A) (sub : TagMultiSubscription A)
      → lookup tag sub.prev ≡ some old
      → deep_equal cur old ≡ true
      → on_tag deep_equal tag cur sub ≡ sub
  unfolding on_tag
  on_tag-same tag cur old sub e d = rw (on_tag, e, d) refl

  on_tag-changed :
      (tag : Bytes) (cur old : A) (sub : TagMultiSubscription A)
      → lookup tag sub.prev ≡ some old
      → deep_equal cur old ≡ false
      → on_tag deep_equal tag cur sub ≡ record sub {
        prev = insert tag cur sub.prev;
        values = offer (tag, cur) sub.value_cap sub.values;
      }
  unfolding on_tag
  on_tag-changed tag cur old sub e d = rw (on_tag, e, d) refl

  same_tag :
      (tag : Bytes) (cur : A) (reads : List A) (sub : TagMultiSubscription A) (p : Option A)
      (t : Bool)
      → lookup tag sub.prev ≡ p
      → offer (tag, cur) sub.value_cap sub.values ≡ sub.values ++ ((tag, cur) ∷ [])
      → due_of tag reads (on_tag deep_equal tag cur (record sub { emit_initial = t }))
        ≡ due_of tag (cur ∷ reads) (record sub { emit_initial = t })
  unfolding changes
  same_tag tag cur reads sub none true e room =
      rw
        (
          on_tag-new tag cur (record sub { emit_initial = true }) e,
          room,
          lookup-insert tag tag cur sub.prev,
          only_snoc tag tag cur sub.values,
          same_text_refl tag,
          e,
        )
        (simp append_assoc)
  same_tag tag cur reads sub none false e room =
      rw
        (
          on_tag-new tag cur (record sub { emit_initial = false }) e,
          lookup-insert tag tag cur sub.prev,
          same_text_refl tag,
          e,
        )
        refl
  same_tag tag cur reads sub (some old) t e room = elim (Bool-cases (deep_equal cur old)) [
    | inl same ↦ rw (on_tag-same tag cur old (record sub { emit_initial = t }) e same, e, same) refl
    | inr differ ↦
        rw
          (
            on_tag-changed tag cur old (record sub { emit_initial = t }) e differ,
            room,
            lookup-insert tag tag cur sub.prev,
            only_snoc tag tag cur sub.values,
            same_text_refl tag,
            e,
            differ,
          )
          (simp append_assoc)
  ]

  other_tag :
      (k tag : Bytes) (cur : A) (reads : List A) (sub : TagMultiSubscription A) (p : Option A)
      (t : Bool)
      → same_text tag k ≡ false
      → lookup tag sub.prev ≡ p
      → offer (tag, cur) sub.value_cap sub.values ≡ sub.values ++ ((tag, cur) ∷ [])
      → due_of k reads (on_tag deep_equal tag cur (record sub { emit_initial = t }))
        ≡ due_of k reads (record sub { emit_initial = t })
  other_tag k tag cur reads sub none true d e room =
      rw
        (
          on_tag-new tag cur (record sub { emit_initial = true }) e,
          room,
          lookup-insert k tag cur sub.prev,
          only_snoc k tag cur sub.values,
          d,
          append-nil (only k sub.values),
        )
        refl
  other_tag k tag cur reads sub none false d e room =
      rw
        (
          on_tag-new tag cur (record sub { emit_initial = false }) e,
          lookup-insert k tag cur sub.prev,
          d,
        )
        refl
  other_tag k tag cur reads sub (some old) t d e room = elim (Bool-cases (deep_equal cur old)) [
    | inl same ↦ rw (on_tag-same tag cur old (record sub { emit_initial = t }) e same) refl
    | inr differ ↦
        rw
          (
            on_tag-changed tag cur old (record sub { emit_initial = t }) e differ,
            room,
            lookup-insert k tag cur sub.prev,
            only_snoc k tag cur sub.values,
            d,
            append-nil (only k sub.values),
          )
          refl
  ]

  on_tag-due :
      (k tag : Bytes) (cur : A) (reads : List A) (sub : TagMultiSubscription A)
      → length sub.values < sub.value_cap
      → due_of k reads (on_tag deep_equal tag cur sub)
        ≡ due_of k (if same_text tag k then cur ∷ reads else reads) sub
  on_tag-due k tag cur reads sub h =
      let room : offer (tag, cur) sub.value_cap sub.values ≡ sub.values ++ ((tag, cur) ∷ []) =
        rw (lt→ltb (length sub.values) sub.value_cap h) refl in
      elim (Bool-cases (same_text tag k)) [
        | inl s ↦
            rw (s, sym (same_text_sound tag k s))
              (same_tag tag cur reads sub (lookup tag sub.prev) sub.emit_initial refl room)
        | inr d ↦
            rw d (other_tag k tag cur reads sub (lookup tag sub.prev) sub.emit_initial d refl room)
      ]

  -- What a step leaves alone, and how many updates it may add.
  pub record Grows (n : ℕ) (sub next : TagMultiSubscription A) : Type 0 where
    pub cap_eq : next.value_cap ≡ sub.value_cap
    pub emit_eq : next.emit_initial ≡ sub.emit_initial
    pub values_le : length next.values ≤ length sub.values + n

  offer-Grows :
      (u : Bytes × A) (cap : ℕ) (xs : List (Bytes × A)) → length (offer u cap xs) ≤ length xs + 1
  offer-Grows u cap xs = elim (Bool-cases (ltb (length xs) cap)) [
    | inl e ↦ rw e (omega (arith, length-append xs (u ∷ [])))
    | inr e ↦ rw e (omega arith)
  ]

  if-Grows :
      (u : Bytes × A) (cap : ℕ) (xs : List (Bytes × A)) (t : Bool)
      → length (if t then offer u cap xs else xs) ≤ length xs + 1
  if-Grows u cap xs true = offer-Grows u cap xs
  if-Grows u cap xs false = omega arith

  on_tag-Grows :
      (tag : Bytes) (cur : A) (sub : TagMultiSubscription A)
      → Grows 1 sub (on_tag deep_equal tag cur sub)
  on_tag-Grows tag cur sub = elim (Option-cases (lookup tag sub.prev)) [
    | inl e ↦ rw (on_tag-new tag cur sub e) record {
      cap_eq = refl;
      emit_eq = refl;
      values_le = if-Grows (tag, cur) sub.value_cap sub.values sub.emit_initial;
    }
    | inr (old, e) ↦ elim (Bool-cases (deep_equal cur old)) [
      | inl s ↦
          rw (on_tag-same tag cur old sub e s)
            record { cap_eq = refl; emit_eq = refl; values_le = omega arith }
      | inr d ↦ rw (on_tag-changed tag cur old sub e d) record {
        cap_eq = refl;
        emit_eq = refl;
        values_le = offer-Grows (tag, cur) sub.value_cap sub.values;
      }
    ]
  ]

  pub on_tags-Grows :
      (rs : List (Bytes × A)) (sub : TagMultiSubscription A)
      → Grows (length rs) sub (on_tags deep_equal rs sub)
  unfolding on_tags
  on_tags-Grows [] sub = record { cap_eq = refl; emit_eq = refl; values_le = omega arith }
  on_tags-Grows ((tag, cur) ∷ rs) sub =
      let g = on_tag-Grows tag cur sub in
      let gs = on_tags-Grows rs (on_tag deep_equal tag cur sub) in
      record {
        cap_eq = gs.cap_eq ∙ g.cap_eq;
        emit_eq = gs.emit_eq ∙ g.emit_eq;
        values_le = omega (arith, g.values_le, gs.values_le);
      }

  pub on_tags-due :
      (k : Bytes) (rs : List (Bytes × A)) (later : List A) (sub : TagMultiSubscription A)
      → length sub.values + length rs ≤ sub.value_cap
      → due_of k later (on_tags deep_equal rs sub) ≡ due_of k (only k rs ++ later) sub
  unfolding on_tags only
  on_tags-due k [] later sub h = refl
  on_tags-due k ((tag, cur) ∷ rs) later sub h =
      let g = on_tag-Grows tag cur sub in
      on_tags-due k rs later (on_tag deep_equal tag cur sub) (omega (arith, g.cap_eq, g.values_le))
      ∙ on_tag-due k tag cur (only k rs ++ later) sub (omega arith)
      ∙ elim (Bool-cases (same_text tag k)) [ inl e ↦ rw e refl | inr e ↦ rw e refl ]
