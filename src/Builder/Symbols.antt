-- ===== src/Builder/Symbols.antt =====
-- A tag's path from PathBuilder's Symbolic and Element calls (path.go), and from newSymbolicIOI (ioi.go).
use gologix.Base.{
  ℕ, ◌<◌, ◌≡◌, refl, List, [], ◌∷◌, ◌++◌, append_assoc, arith, none, All, ◌==◌, false,
}
use gologix.Base.Result.{ok}
use gologix.Wire.{Bytes}
use gologix.Segment.Element
use gologix.Ioi.{TagIoi, index_part, index_parts, new_symbolic_ioi, cip_type_bool}
use gologix.Ioi.Names.{Part, IsPart, IsIndex, part_bytes, tag_bytes, print_tag}
use gologix.Ioi.Parse.Names.{marshal-Lacks}
use gologix.Ioi.Encode.{new_symbolic_ioi-print_tag}
use gologix.Builder.{Call, on_symbol, on_element, build, new_path_builder}
use gologix.Builder.Segments.{segment, segments, build-segments}

-- The calls for an index list, and for the parts of a tag.
unfoldable pub element_calls : List ℕ → List Call → List Call
element_calls [] more = more
element_calls (i ∷ is) more = on_element i ∷ element_calls is more

unfoldable pub tag_calls : List Part → List Call
tag_calls [] = []
tag_calls (p ∷ ps) = on_symbol p.name ∷ element_calls p.indices (tag_calls ps)

element-eq-index_part : (i : ℕ) → i < 65536 → Element.bytes i ≡ index_part i
unfolding Element.bytes index_part
element-eq-index_part i h = ground arith

segments-element_calls :
    (is : List ℕ) (more : List Call) (bs : Bytes)
    → All IsIndex is
    → segments more ≡ ok bs
    → segments (element_calls is more) ≡ ok (index_parts is ++ bs)
unfolding segments segment element_calls index_parts
segments-element_calls [] more bs h k = k
segments-element_calls (i ∷ is) more bs (h, hs) k =
    rw (segments-element_calls is more bs hs k, element-eq-index_part i h, append_assoc)

segments-tag_calls : (ps : List Part) → All IsPart ps → segments (tag_calls ps) ≡ ok (tag_bytes ps)
unfolding segments segment tag_calls tag_bytes part_bytes
segments-tag_calls [] h = refl
segments-tag_calls (p ∷ ps) (h, hs) = rw (
  marshal-Lacks p.name h.no_dot h.no_open,
  segments-element_calls p.indices (tag_calls ps) (tag_bytes ps) h.indices_fit
      (segments-tag_calls ps hs),
  append_assoc,
)

-- For a tag of at least one part and a type other than BOOL, a new builder's Symbolic and Element
-- calls for the parts and their 16-bit indices write the very bytes that newSymbolicIOI gives for the
-- tag's name.
pub build-tag_calls :
    (p : Part) (ps : List Part) (datatype : ℕ)
    → All IsPart (p ∷ ps)
    → (datatype == cip_type_bool) ≡ false
    → (ioi : TagIoi) × (new_symbolic_ioi (print_tag (p ∷ ps)) datatype ≡ ok ioi)
      × (build (tag_calls (p ∷ ps)) new_path_builder
          ≡ ok (record { b = ioi.buffer; failed = none }))
unfolding new_path_builder
build-tag_calls p ps datatype h k = (
  _,
  new_symbolic_ioi-print_tag p ps datatype h k,
  build-segments (tag_calls (p ∷ ps)) [] _ (segments-tag_calls (p ∷ ps) h),
)
