-- ===== src/Server/Sorted.antt =====
-- sort.Slice by name (server_unconnected.go): the order of the tags before it does not matter.
use gologix.Base.{
  ◌≡◌, ◌≢◌, refl, sym, ap, ◌∙◌, ◌⊎◌, inl, inr, List, [], ◌∷◌, true, false, arith, ◌==◌, ==_iff,
  Bool-cases,
}
use gologix.Wire.{Bytes}
use gologix.Server.Session.{TagInfo}
use gologix.Server.Attributes.{less, insert_tag, sort}

less-asym : (s t : Bytes) → less s t ≡ true → less t s ≡ false
unfolding less
less-asym s [] h = cc
less-asym [] (y ∷ t) h = refl
less-asym (x ∷ s) (y ∷ t) h = ground (arith, less-asym s t)

less-total : (s t : Bytes) → less s t ≡ false → (s ≡ t) ⊎ (less t s ≡ true)
unfolding less
less-total [] [] h = inl refl
less-total (x ∷ s) [] h = inr refl
less-total [] (y ∷ t) h = cc
less-total (x ∷ s) (y ∷ t) h = elim (Bool-cases (x == y)) [
  | inl e ↦ elim (less-total s t (rw e at h)) [
    | inl q ↦ inl (let p : x ≡ y = (==_iff x y).0 e in cc)
    | inr q ↦ inr (ground arith)
  ]
  | inr e ↦ inr (ground arith)
]

-- What is not below `s` comes behind it.
less_between : (s t u : Bytes) → less s t ≡ false → less s u ≡ true → less t u ≡ true
unfolding less
less_between s t [] h k = cc
less_between s [] (z ∷ u) h k = refl
less_between [] (y ∷ t) (z ∷ u) h k = cc
less_between (x ∷ s) (y ∷ t) (z ∷ u) h k = ground (arith, less_between s t u)

insert_lower :
    (a b : TagInfo) (tags : List TagInfo)
    → less a.name b.name ≡ true
    → insert_tag a (insert_tag b tags) ≡ insert_tag b (insert_tag a tags)
unfolding insert_tag
insert_lower a b [] h = rw (h, less-asym a.name b.name h) refl
insert_lower a b (u ∷ tags) h =
    let k = less-asym a.name b.name h in
    elim (Bool-cases (less u.name a.name)) [
      | inl p ↦ elim (Bool-cases (less u.name b.name)) [
        | inl q ↦ rw (p, q, p) (ap (λ r. u ∷ r) (insert_lower a b tags h))
        | inr q ↦ let x : true ≡ false = sym (less_between u.name b.name a.name q p) ∙ k in cc
      ]
      | inr p ↦ elim (Bool-cases (less u.name b.name)) [
        | inl q ↦ rw (p, q, p, h) refl
        | inr q ↦ rw (p, q, k, h) refl
      ]
    ]

insert_tag_comm :
    (a b : TagInfo) (tags : List TagInfo)
    → a.name ≢ b.name
    → insert_tag a (insert_tag b tags) ≡ insert_tag b (insert_tag a tags)
insert_tag_comm a b tags h = elim (Bool-cases (less a.name b.name)) [
  | inl p ↦ insert_lower a b tags p
  | inr p ↦ elim (less-total a.name b.name p) [
    | inl e ↦ absurd (h e)
    | inr q ↦ sym (insert_lower b a tags q)
  ]
]

-- Two orders of the same entries of a map, of which no two have the same name.
pub data SameEntries : List TagInfo → List TagInfo → Type 0 where
  none : SameEntries [] []
  first :
      (t : TagInfo) {tags others : List TagInfo}
      → SameEntries tags others
      → SameEntries (t ∷ tags) (t ∷ others)
  swap :
      (a b : TagInfo) (tags : List TagInfo)
      → a.name ≢ b.name
      → SameEntries (a ∷ b ∷ tags) (b ∷ a ∷ tags)
  both :
      {tags between others : List TagInfo}
      → SameEntries tags between
      → SameEntries between others
      → SameEntries tags others

-- Sorting by name forgets the order.
pub sort-SameEntries :
    {tags others : List TagInfo} → SameEntries tags others → sort tags ≡ sort others
unfolding sort
sort-SameEntries SameEntries.none = refl
sort-SameEntries (SameEntries.first t d) = ap (insert_tag t) (sort-SameEntries d)
sort-SameEntries (SameEntries.swap a b tags h) = insert_tag_comm a b (sort tags) h
sort-SameEntries (SameEntries.both d e) = sort-SameEntries d ∙ sort-SameEntries e
