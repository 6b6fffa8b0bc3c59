-- ===== src/Item/Payload/Slots.antt =====
-- The STRING slots that Serialize writes for a []string (items.go).
use gologix.Base.{ℕ, ◌*◌, ◌≡◌, List, [], ◌∷◌, ◌++◌, length, take, arith}
use gologix.Base.{
  length-append, length-take, length-replicate, take-append, drop-append, append_assoc, refl, ap,
  ◌∙◌,
}
use mathlib.Core.Path.{subst}
use gologix.Wire.RoundTrip.{read_u32-put}
use gologix.Base.{drop, min}
use gologix.Base.Result.{ok}
use gologix.Wire.{Bytes, read_u32}
use gologix.Item.Payload.{slot, string_element, string_elements}

pub length-slot : (n : ℕ) (x : Bytes) → length (slot n x) ≡ n
length-slot n x = rw (length-append, length-take, length-replicate) (omega arith)

length-string_element : (s : Bytes) → length (string_element s) ≡ 88
unfolding string_element
length-string_element s = omega (arith, length-slot 84 s)

length-string_elements : (ss : List Bytes) → length (string_elements ss) ≡ 88 * length ss
unfolding string_elements
length-string_elements [] = refl
length-string_elements (s ∷ ss) =
    rw (length-append, length-string_element) (omega (arith, length-string_elements ss))

read_u32-string_element :
    (s more : Bytes)
    → read_u32 (string_element s ++ more) ≡ ok (min 84 (length s), slot 84 s ++ more)
unfolding string_element
read_u32-string_element s more =
    read_u32-put _ (slot 84 s ++ more) (ground arith)
    ∙ ap (λ n. ok (n, slot 84 s ++ more)) (ground arith)

take-slot : (s more : Bytes) → take (min 84 (length s)) (slot 84 s ++ more) ≡ take 84 s
take-slot s more = rw (← length-take 84 s, append_assoc) (take-append (take 84 s) _)

drop-slot : (s more : Bytes) → drop 84 (slot 84 s ++ more) ≡ more
drop-slot s more =
    subst (λ n. drop n (slot 84 s ++ more) ≡ more) (length-slot 84 s) (drop-append (slot 84 s) more)

read_u32-string_elements :
    (s : Bytes) (ss : List Bytes) (more : Bytes)
    → read_u32 (string_elements (s ∷ ss) ++ more)
      ≡ ok (min 84 (length s), slot 84 s ++ (string_elements ss ++ more))
unfolding string_elements
read_u32-string_elements s ss more =
    ap read_u32 (append_assoc (string_element s) (string_elements ss) more)
    ∙ read_u32-string_element s (string_elements ss ++ more)

-- A []string of n strings takes 88 bytes for each, and a reader of the first slot finds a length of
-- at most 84 in its header, that many bytes of the string behind it, and the other slots 84 bytes
-- further on.
pub string_elements_slots :
    (s : Bytes) (ss : List Bytes) (more : Bytes)
    → (length (string_elements (s ∷ ss)) ≡ 88 * length (s ∷ ss))
      × (r : Bytes) × (read_u32 (string_elements (s ∷ ss) ++ more) ≡ ok (min 84 (length s), r))
      × (take (min 84 (length s)) r ≡ take 84 s)
      × (drop 84 r ≡ string_elements ss ++ more)
string_elements_slots s ss more = (
  length-string_elements (s ∷ ss),
  slot 84 s ++ (string_elements ss ++ more),
  read_u32-string_elements s ss more,
  take-slot s _,
  drop-slot s _,
)
