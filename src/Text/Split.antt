-- ===== src/Text/Split.antt =====
-- strings.Split undoes strings.Join.
use gologix.Base.{ℕ, ◌≡◌, refl, ap, ◌∙◌, List, [], ◌∷◌, ◌++◌, false, ◌||◌, arith, ◌==◌, All}
use gologix.Wire.{Bytes}
use gologix.Text.{contains, split, join, remove_all}

abbrev pub Lacks : ℕ → Bytes → Type 0
Lacks c s = contains c s ≡ false

-- A part that lacks the separator, and the separator behind it.
pub split-append : (c : ℕ) (p s : Bytes) → Lacks c p → split c (p ++ (c ∷ s)) ≡ p ∷ split c s
unfolding split contains
split-append c [] s h = ground arith
split-append c (x ∷ p) s h = ground (arith, split-append c p s)

pub split_alone : (c : ℕ) (p : Bytes) → Lacks c p → split c p ≡ p ∷ []
unfolding split contains
split_alone c [] h = refl
split_alone c (x ∷ p) h = ground (arith, split_alone c p)

pub split-join :
    (c : ℕ) (p : Bytes) (ps : List Bytes)
    → All (Lacks c) (p ∷ ps)
    → split c (join c (p ∷ ps)) ≡ p ∷ ps
unfolding join
split-join c p [] (h, _) = split_alone c p h
split-join c p (q ∷ ps) (h, hs) =
    split-append c p (join c (q ∷ ps)) h ∙ ap (λ r. p ∷ r) (split-join c q ps hs)

pub contains-append : (c : ℕ) (s t : Bytes) → contains c (s ++ t) ≡ (contains c s || contains c t)
unfolding contains
contains-append c [] t = refl
contains-append c (x ∷ s) t = ground (arith, contains-append c s t)

-- A character other than the separator that no part has does not stand in the joined text.
pub contains-join :
    (k c : ℕ) (ps : List Bytes)
    → (k == c) ≡ false
    → (c == k) ≡ false
    → All (Lacks k) ps
    → Lacks k (join c ps)
unfolding join contains
contains-join k c [] d d' h = refl
contains-join k c (p ∷ []) d d' (h, _) = h
contains-join k c (p ∷ q ∷ ps) d d' (h, hs) =
    ground (arith, contains-append k p (c ∷ join c (q ∷ ps)), contains-join k c (q ∷ ps) d d' hs)

pub remove_all-Lacks : (c : ℕ) (s : Bytes) → Lacks c s → remove_all c s ≡ s
unfolding remove_all contains
remove_all-Lacks c [] h = refl
remove_all-Lacks c (x ∷ s) h = ground (arith, remove_all-Lacks c s)
