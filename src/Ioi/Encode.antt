-- ===== src/Ioi/Encode.antt =====
-- What newSymbolicIOI writes for a tag name made of parts, each a name with indices.
use gologix.Base.{
  ℕ, ◌≡◌, ◌≢◌, refl, ap, ◌∙◌, List, [], ◌∷◌, ◌++◌, true, false, All, map, ◌==◌, append_assoc,
  append-nil,
}
use gologix.Base.Int.{ℤ, pos}
use gologix.Base.Result.{Result, ok, err, panic, ◌>>=◌}
use gologix.Wire.{Bytes}
use gologix.Text.{atoi, ends_with, take_until}
use gologix.Text.Decimal.{atoi-ne-panic}
use gologix.Text.Split.{Lacks, split-join}
use gologix.Text.Find.{ends_with-append, ends_with-Lacks, take_until-append}
use gologix.Ioi.{
  TagIoi, write, symbolic, marshal_ioi_part, index_parts, append_ioi_part, append_parts,
  add_indexed, add_plain, cip_type_bool, new_symbolic_ioi,
}
use gologix.Ioi.Names.{
  Part, IsPart, is_bit_number, print_indices, print_part, print_tag, part_bytes, tag_bytes,
}
use gologix.Ioi.Parse.Names.{index_list, marshal-Lacks, indexed-Lacks, parse_tag-indexed}

add_plain-add_member :
    (r : Result ℤ) (part : Bytes) (ioi : TagIoi)
    → r ≢ panic
    → is_bit_number r ≡ false
    → add_plain r part ioi ≡ (marshal_ioi_part part >>= λ b. ok (write b ioi))
unfolding add_plain
add_plain-add_member (ok bit) part ioi h k = rw k
add_plain-add_member (err e) part ioi h k = refl
add_plain-add_member panic part ioi h k = absurd (h refl)

append-plain :
    (c : ℕ) (name : Bytes) (ioi : TagIoi)
    → IsPart (record { name = c ∷ name; indices = [] })
    → append_ioi_part (c ∷ name) ioi ≡ ok (write (symbolic (c ∷ name)) ioi)
unfolding append_ioi_part
append-plain c name ioi h = rw (
  ends_with-Lacks b']' (c ∷ name) h.no_close,
  add_plain-add_member (atoi (c ∷ name)) (c ∷ name) ioi (atoi-ne-panic (c ∷ name)) h.not_bit,
  marshal-Lacks (c ∷ name) h.no_dot h.no_open,
)

ends_with-indexed :
    (name : Bytes) (i : ℕ) (is : List ℕ) → ends_with b']' (name ++ print_indices (i ∷ is)) ≡ true
unfolding print_indices
ends_with-indexed name i is =
    rw (← append_assoc name (b'[' ∷ index_list i is) (b']' ∷ []))
      (ends_with-append b']' (name ++ (b'[' ∷ index_list i is)))

take_until-indexed :
    (name : Bytes) (i : ℕ) (is : List ℕ)
    → Lacks b'[' name
    → take_until b'[' (name ++ print_indices (i ∷ is)) ≡ name
unfolding print_indices
take_until-indexed name i is h = take_until-append b'[' name _ h

append-indexed :
    (c : ℕ) (name : Bytes) (i : ℕ) (is : List ℕ) (ioi : TagIoi)
    → IsPart (record { name = c ∷ name; indices = i ∷ is })
    → (ioi.type_code == cip_type_bool) ≡ false
    → append_ioi_part ((c ∷ name) ++ print_indices (i ∷ is)) ioi
      ≡ ok (write (index_parts (i ∷ is)) (write (symbolic (c ∷ name)) ioi))
unfolding append_ioi_part add_indexed
append-indexed c name i is ioi h not_bool =
    let (t, e, order) = parse_tag-indexed (c ∷ name) i is h.no_dot h.no_open h.indices_fit in
    rw (
      ends_with-indexed (c ∷ name) i is,
      take_until-indexed (c ∷ name) i is h.no_open,
      marshal-Lacks (c ∷ name) h.no_dot h.no_open,
      e,
      not_bool,
      order,
    )

append-print_part :
    (name : Bytes) (indices : List ℕ) (ioi : TagIoi)
    → IsPart (record { name = name; indices = indices })
    → (ioi.type_code == cip_type_bool) ≡ false
    → append_ioi_part (name ++ print_indices indices) ioi
      ≡ ok (write (symbolic name ++ index_parts indices) ioi)
append-print_part [] indices ioi h k = absurd (h.named refl)
append-print_part (c ∷ name) [] ioi h k =
    unfold print_indices index_parts in simp append-nil (append-plain c name ioi h)
append-print_part (c ∷ name) (i ∷ is) ioi h k =
    append-indexed c name i is ioi h k
    ∙ ap (λ b. ok (record ioi { buffer = b }))
        (append_assoc ioi.buffer (symbolic (c ∷ name)) (index_parts (i ∷ is)))

append_parts-print :
    (ps : List Part) (ioi : TagIoi)
    → All IsPart ps
    → (ioi.type_code == cip_type_bool) ≡ false
    → append_parts (map print_part ps) ioi ≡ ok (write (tag_bytes ps) ioi)
unfolding append_parts tag_bytes print_part part_bytes
append_parts-print [] ioi h k = rw append-nil
append_parts-print (p ∷ ps) ioi (h, hs) k = rw (append-print_part p.name p.indices ioi h k) (
    append_parts-print ps _ hs k
    ∙ ap (λ b. ok (record ioi { buffer = b }))
        (append_assoc ioi.buffer (symbolic p.name ++ index_parts p.indices) (tag_bytes ps)))

print_part-Lacks :
    (name : Bytes) (is : List ℕ) → Lacks b'.' name → Lacks b'.' (name ++ print_indices is)
unfolding print_indices
print_part-Lacks name [] h = rw append-nil h
print_part-Lacks name (i ∷ is) h = indexed-Lacks name i is h

print_parts-Lacks : (ps : List Part) → All IsPart ps → All (Lacks b'.') (map print_part ps)
unfolding print_part
print_parts-Lacks [] h = tt
print_parts-Lacks (p ∷ ps) (h, hs) =
    (print_part-Lacks p.name p.indices h.no_dot, print_parts-Lacks ps hs)

-- For a tag of at least one part and a type other than BOOL, newSymbolicIOI writes for each part a
-- symbolic segment with its name and one element segment for each index, in order, and selects no bit.
pub new_symbolic_ioi-print_tag :
    (p : Part) (ps : List Part) (datatype : ℕ)
    → All IsPart (p ∷ ps)
    → (datatype == cip_type_bool) ≡ false
    → new_symbolic_ioi (print_tag (p ∷ ps)) datatype
      ≡ ok (record {
        path = print_tag (p ∷ ps);
        type_code = datatype;
        bit_access = false;
        bit_position = pos 0;
        buffer = tag_bytes (p ∷ ps);
      })
unfolding new_symbolic_ioi print_tag
new_symbolic_ioi-print_tag p ps datatype h k =
    rw (split-join b'.' (print_part p) (map print_part ps) (print_parts-Lacks (p ∷ ps) h))
      (append_parts-print (p ∷ ps) _ h k)
