-- ===== src/Builder/Segments.antt =====
-- A chain of PathBuilder calls (path.go) is the concatenation of the calls' segments.
use gologix.Base.{
  ℕ, ◌<◌, ◌≡◌, refl, sym, ap, ◌∙◌, List, [], ◌∷◌, ◌++◌, append_assoc, append-nil, some, none,
}
use gologix.Base.Result.{Result, ok, err, Error, ◌>>=◌, >>=-eq-ok}
use gologix.Wire.{Bytes, put_u8}
use gologix.Segment.{parse_class_instance_path}
use gologix.Segment.RoundTrip.{parse_class_instance_path-bytes}
use gologix.Segment.Address
use gologix.Segment.Class
use gologix.Segment.Instance
use gologix.Segment.Attribute
use gologix.Segment.Element
use gologix.Ioi.{marshal_ioi_part}
use gologix.Path.{parse_path}
use gologix.Builder.{
  PathBuilder, Call, raw, on_class, on_instance, on_attribute, on_symbol, on_element, on_port,
  on_address, on_slot, on_path, append, call, build, new_path_builder, custom, class, instance_of,
  attribute, symbolic, element, port, address, slot, parse,
}

-- The segment that a call stands for.
unfoldable pub segment : Call → Result Bytes
segment (raw d) = ok d
segment (on_class n) = ok (Class.bytes n)
segment (on_instance n) = ok (Instance.bytes n)
segment (on_attribute n) = ok (Attribute.bytes n)
segment (on_symbol s) = marshal_ioi_part s
segment (on_element n) = ok (Element.bytes n)
segment (on_port n) = ok (put_u8 n)
segment (on_address n) = ok (Address.bytes n)
segment (on_slot n) = ok (put_u8 n)
segment (on_path s) = parse_path s

unfoldable pub segments : List Call → Result Bytes
segments [] = ok []
segments (c ∷ cs) = do s ← segment c; ss ← segments cs; ok (s ++ ss)

pub call-append : (c : Call) (pb : PathBuilder) → call c pb ≡ append (segment c) pb
unfolding call segment custom class instance_of attribute symbolic element port address slot parse
call-append (raw d) pb = refl
call-append (on_class n) pb = refl
call-append (on_instance n) pb = refl
call-append (on_attribute n) pb = refl
call-append (on_symbol s) pb = refl
call-append (on_element n) pb = refl
call-append (on_port n) pb = refl
call-append (on_address n) pb = refl
call-append (on_slot n) pb = refl
call-append (on_path s) pb = refl

abbrev open_at : Bytes → PathBuilder
open_at b = record { b = b; failed = none }

build_cons :
    (c : Call) (cs : List Call) (b s : Bytes)
    → segment c ≡ ok s
    → build (c ∷ cs) (open_at b) ≡ build cs (open_at (b ++ s))
unfolding build append
build_cons c cs b s h = rw (call-append c, h)

regroup :
    (b s ss bs : Bytes) → ◌≡◌ {A = Result Bytes} (ok (s ++ ss)) (ok bs) → (b ++ s) ++ ss ≡ b ++ bs
regroup b s ss bs h = append_assoc b s ss ∙ cc

no_more : (b bs : Bytes) → ◌≡◌ {A = Result Bytes} (ok []) (ok bs) → b ≡ b ++ bs
no_more b bs h = sym (append-nil b) ∙ cc

-- A chain whose calls all have segments leaves the builder without an error, and its bytes are those
-- it had, followed by the segments in the order of the calls.
pub build-segments :
    (cs : List Call) (b bs : Bytes)
    → segments cs ≡ ok bs
    → build cs (record { b = b; failed = none }) ≡ ok (record { b = b ++ bs; failed = none })
unfolding segments
build-segments [] b bs h = unfold build in ap (λ t. ok (open_at t)) (no_more b bs h)
build-segments (c ∷ cs) b bs h =
    let (s, p, q) = >>=-eq-ok (segment c) _ h in
    let (ss, p', q') = >>=-eq-ok (segments cs) _ q in
    build_cons c cs b s p
    ∙ build-segments cs (b ++ s) ss p'
    ∙ ap (λ t. ok (open_at t)) (regroup b s ss bs q')

build_failed :
    (cs : List Call) (b : Bytes) (e : Error)
    → build cs (record { b = b; failed = some e }) ≡ ok (record { b = b; failed = some e })
unfolding build append
build_failed [] b e = refl
build_failed (c ∷ cs) b e = rw (call-append c) (build_failed cs b e)

-- The first call that fails decides: the builder keeps its error and the bytes of the calls before
-- it, whatever calls follow, also ones that would panic.
pub build_first_error :
    (before : List Call) (c : Call) (after : List Call) (b bs : Bytes) (e : Error)
    → segments before ≡ ok bs
    → segment c ≡ err e
    → build (before ++ (c ∷ after)) (record { b = b; failed = none })
      ≡ ok (record { b = b ++ bs; failed = some e })
unfolding segments
build_first_error [] c after b bs e h k =
    unfold build append in
    rw (call-append c, k)
      (build_failed after b e ∙ ap (λ t. ok (record { b = t; failed = some e })) (no_more b bs h))
build_first_error (d ∷ before) c after b bs e h k =
    let (s, p, q) = >>=-eq-ok (segment d) _ h in
    let (ss, p', q') = >>=-eq-ok (segments before) _ q in
    build_cons d (before ++ (c ∷ after)) b s p
    ∙ build_first_error before c after (b ++ s) ss e p' k
    ∙ ap (λ t. ok (record { b = t; failed = some e })) (regroup b s ss bs q')

-- The chain Class, Instance on a new builder writes a path that the server's parseClassInstancePath
-- reads as that class (below 2^16) and that instance (below 2^32), whatever follows it.
pub parse_class_instance_path-build :
    (c i : ℕ) (rest : Bytes)
    → c < 65536
    → i < 4294967296
    → (pb : PathBuilder) × (build (on_class c ∷ on_instance i ∷ []) new_path_builder ≡ ok pb)
      × (parse_class_instance_path (pb.b ++ rest) ≡ ok ((c, i), rest))
unfolding new_path_builder segments segment
parse_class_instance_path-build c i rest hc hi = (
  open_at (Class.bytes c ++ (Instance.bytes i ++ [])),
  build-segments (on_class c ∷ on_instance i ∷ []) [] _ refl,
  rw (append-nil, append_assoc) (parse_class_instance_path-bytes c i rest hc hi),
)
