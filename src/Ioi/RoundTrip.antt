-- ===== src/Ioi/RoundTrip.antt =====
-- A tag name that newSymbolicIOI encodes is the one that getTagFromPath reads (ioi.go).
use gologix.Base.{
  ℕ, ◌≡◌, ◌≢◌, refl, sym, ap, ◌∙◌, List, [], ◌∷◌, ◌++◌, true, false, arith, All, Bool, map,
  append_assoc, append-nil, ◌==◌, ◌||◌, not,
}
use gologix.Base.Result.{ok}
use gologix.Wire.{Bytes}
use gologix.Text.{contains, decimal, join, ends_with}
use gologix.Text.Find.{ends_with-Lacks}
use gologix.Ioi.{TagIoi, symbolic, index_parts, index_part, new_symbolic_ioi, cip_type_bool}
use gologix.Ioi.Decode.{add_name, get_tag_from_path, round, done}
use gologix.Ioi.Names.{
  Part, IsPart, IsIndex, print_indices, print_part, print_tag, part_bytes, tag_bytes,
}
use gologix.Ioi.Encode.{new_symbolic_ioi-print_tag}
use gologix.Ioi.Steps.{
  resume, resume_done, resume-symbolic, resume-index_part, add_index-open, add_index-close,
}

-- The indices behind the first one.
tail_text : List ℕ → Bytes
tail_text [] = []
tail_text (j ∷ js) = b',' ∷ (decimal j ++ tail_text js)

join-tail_text :
    (i : ℕ) (is : List ℕ) → join b',' (map decimal (i ∷ is)) ≡ decimal i ++ tail_text is
unfolding join tail_text
join-tail_text i [] = rw append-nil
join-tail_text i (j ∷ js) = ap (λ t. decimal i ++ (b',' ∷ t)) (join-tail_text j js)

regroup :
    (s d t : Bytes) (x y : ℕ)
    → (s ++ (x ∷ d)) ++ (t ++ (y ∷ [])) ≡ s ++ ((x ∷ (d ++ t)) ++ (y ∷ []))
regroup s d t x y = simp append_assoc

resume-tail :
    (s rest : Bytes) (is : List ℕ)
    → All IsIndex is
    → resume (s ++ (b']' ∷ [])) (index_parts is ++ rest)
      ≡ resume (s ++ (tail_text is ++ (b']' ∷ []))) rest
unfolding index_parts tail_text
resume-tail s rest [] h = refl
resume-tail s rest (i ∷ is) (h, hs) = rw (append_assoc (index_part i) (index_parts is) rest) (
    resume-index_part _ _ _ i h (add_index-close s _ i)
    ∙ ap (λ t. resume t (index_parts is ++ rest))
        (sym (append_assoc s (b',' ∷ decimal i) (b']' ∷ [])))
    ∙ resume-tail (s ++ (b',' ∷ decimal i)) rest is hs
    ∙ ap (λ t. resume t rest) (regroup s (decimal i) (tail_text is) b',' b']'))

resume-indices :
    (tag rest : Bytes) (is : List ℕ)
    → tag ≢ []
    → ends_with b']' tag ≡ false
    → All IsIndex is
    → resume tag (index_parts is ++ rest) ≡ resume (tag ++ print_indices is) rest
unfolding index_parts print_indices
resume-indices tag rest [] h k g = rw append-nil
resume-indices tag rest (i ∷ is) h k (g, gs) =
    rw (append_assoc (index_part i) (index_parts is) rest) (
      resume-index_part _ _ _ i g (add_index-open tag _ i h k)
      ∙ ap (λ t. resume t (index_parts is ++ rest))
          (sym (append_assoc tag (b'[' ∷ decimal i) (b']' ∷ [])))
      ∙ resume-tail (tag ++ (b'[' ∷ decimal i)) rest is gs
      ∙ ap (λ t. resume t rest) (regroup tag (decimal i) (tail_text is) b'[' b']')
      ∙ ap (λ t. resume (tag ++ (b'[' ∷ (t ++ (b']' ∷ [])))) rest) (sym (join-tail_text i is)))

ends_with-append : (c x : ℕ) (s t : Bytes) → ends_with c (s ++ (x ∷ t)) ≡ ends_with c (x ∷ t)
unfolding ends_with
ends_with-append c x [] t = refl
ends_with-append c x (y ∷ []) t = refl
ends_with-append c x (y ∷ z ∷ s) t = ends_with-append c x (z ∷ s) t

ends_with-add_name :
    (tag name : Bytes)
    → name ≢ []
    → contains b']' name ≡ false
    → ends_with b']' (add_name tag name) ≡ false
unfolding add_name
ends_with-add_name [] name h k = ends_with-Lacks b']' name k
ends_with-add_name (c ∷ tag) [] h k = absurd (h refl)
ends_with-add_name (c ∷ tag) (x ∷ name) h k =
    ends_with-append b']' b'.' (c ∷ tag) (x ∷ name)
    ∙ unfold ends_with in ends_with-Lacks b']' (x ∷ name) k

add_name-ne-nil : (tag name : Bytes) → name ≢ [] → add_name tag name ≢ []
unfolding add_name
add_name-ne-nil [] name h = h
add_name-ne-nil (c ∷ tag) name h = λ e. cc

add_name-append : (tag name s : Bytes) → add_name tag name ++ s ≡ add_name tag (name ++ s)
unfolding add_name
add_name-append [] name s = refl
add_name-append (c ∷ tag) name s = append_assoc (c ∷ tag) (b'.' ∷ name) s

resume-part :
    (tag rest : Bytes) (p : Part)
    → IsPart p
    → resume tag (part_bytes p ++ rest) ≡ resume (add_name tag (print_part p)) rest
unfolding part_bytes print_part
resume-part tag rest p h = rw (append_assoc (symbolic p.name) (index_parts p.indices) rest) (
    resume-symbolic tag p.name _ h.short
    ∙ resume-indices (add_name tag p.name) rest p.indices (add_name-ne-nil tag p.name h.named)
        (ends_with-add_name tag p.name h.named h.no_close) h.indices_fit
    ∙ ap (λ t. resume t rest) (add_name-append tag p.name (print_indices p.indices)))

-- The name so far, with the parts behind it.
extend : Bytes → List Part → Bytes
extend tag [] = tag
extend tag (p ∷ ps) = extend (add_name tag (print_part p)) ps

resume-parts :
    (tag rest : Bytes) (ps : List Part)
    → All IsPart ps
    → resume tag (tag_bytes ps ++ rest) ≡ resume (extend tag ps) rest
unfolding tag_bytes extend
resume-parts tag rest [] h = refl
resume-parts tag rest (p ∷ ps) (h, hs) = rw (append_assoc (part_bytes p) (tag_bytes ps) rest) (
    resume-part tag (tag_bytes ps ++ rest) p h
    ∙ resume-parts (add_name tag (print_part p)) rest ps hs)

extend-print :
    (c : ℕ) (tag : Bytes) (p : Part) (ps : List Part)
    → extend (c ∷ tag) (p ∷ ps) ≡ (c ∷ tag) ++ (b'.' ∷ print_tag (p ∷ ps))
unfolding extend print_tag join add_name
extend-print c tag p [] = refl
extend-print c tag p (q ∷ ps) =
    extend-print c (tag ++ (b'.' ∷ print_part p)) q ps
    ∙ append_assoc (c ∷ tag) (b'.' ∷ print_part p) (b'.' ∷ print_tag (q ∷ ps))

print_part-head : (p : Part) → IsPart p → (c : ℕ) × (s : Bytes) × (print_part p ≡ c ∷ s)
unfolding print_part
print_part-head p h = go p.name refl
  where
    go :
        (n : Bytes)
        → p.name ≡ n
        → (c : ℕ) × (s : Bytes) × (p.name ++ print_indices p.indices ≡ c ∷ s)
    go [] e = absurd (h.named e)
    go (c ∷ s) e = (c, s ++ print_indices p.indices, rw e)

extend-cons :
    (t : Bytes) (c : ℕ) (s : Bytes) (p : Part) (ps : List Part)
    → t ≡ c ∷ s
    → extend t (p ∷ ps) ≡ t ++ (b'.' ∷ print_tag (p ∷ ps))
extend-cons t c s p ps e = rw e (extend-print c s p ps)

extend-nil : (p : Part) (ps : List Part) → IsPart p → extend [] (p ∷ ps) ≡ print_tag (p ∷ ps)
unfolding extend print_tag join add_name
extend-nil p [] h = refl
extend-nil p (q ∷ ps) h =
    let (c, s, e) = print_part-head p h in extend-cons (print_part p) c s q ps e

-- Whether a path ends here: nothing follows, or a byte that is no 8-bit or 16-bit element segment and
-- no symbolic segment.
abbrev pub stops : Bytes → Bool
stops [] = true
stops (t ∷ rest) = not (t == 0x28 || t == 0x29 || t == 0x91)

resume-stops : (tag rest : Bytes) → stops rest ≡ true → resume tag rest ≡ ok (tag, rest)
resume-stops tag rest h = resume_done tag rest rest (round-stops tag rest h)
  where
    round-stops : (tag rest : Bytes) → stops rest ≡ true → round tag rest ≡ ok (done rest)
    round-stops tag [] h = unfold round in refl
    round-stops tag (t ∷ rest) h = unfold round in ground arith

get_tag_from_path-tag_bytes :
    (p : Part) (ps : List Part) (rest : Bytes)
    → All IsPart (p ∷ ps)
    → stops rest ≡ true
    → get_tag_from_path (tag_bytes (p ∷ ps) ++ rest) ≡ ok (print_tag (p ∷ ps), rest)
unfolding get_tag_from_path
get_tag_from_path-tag_bytes p ps rest (h, hs) k =
    resume-parts [] rest (p ∷ ps) (h, hs)
    ∙ ap (λ t. resume t rest) (extend-nil p ps h)
    ∙ resume-stops (print_tag (p ∷ ps)) rest k

-- The path that newSymbolicIOI writes for a tag of at least one part (a name of 1 to 255 characters
-- without dots and brackets that is no bit number, with indices below 65536; a type other than BOOL) is
-- read by getTagFromPath as that tag, and what follows the path is left, where nothing or another kind
-- of byte follows.
pub get_tag_from_path-new_symbolic_ioi :
    (p : Part) (ps : List Part) (datatype : ℕ) (rest : Bytes)
    → All IsPart (p ∷ ps)
    → (datatype == cip_type_bool) ≡ false
    → stops rest ≡ true
    → (ioi : TagIoi) × (new_symbolic_ioi (print_tag (p ∷ ps)) datatype ≡ ok ioi)
      × (get_tag_from_path (ioi.buffer ++ rest) ≡ ok (print_tag (p ∷ ps), rest))
get_tag_from_path-new_symbolic_ioi p ps datatype rest h k s =
    (_, new_symbolic_ioi-print_tag p ps datatype h k, get_tag_from_path-tag_bytes p ps rest h s)
