-- ===== src/Builder.antt =====
-- path.go: PathBuilder, which appends segments until the first error.
pub mod Segments
pub mod Symbols
mod Tests
use gologix.Base.{ℕ, ◌%◌, List, [], ◌∷◌, ◌++◌, Option, some, none}
use gologix.Base.Result.{Result, ok, err, panic, Error, ◌>>=◌}
use gologix.Wire.{Bytes, put_u8}
use gologix.Segment.Address
use gologix.Segment.Class
use gologix.Segment.Instance
use gologix.Segment.Attribute
use gologix.Segment.Element
use gologix.Ioi.{marshal_ioi_part}
use gologix.Path.{parse_path}

pub record PathBuilder : Type 0 where
  pub b : Bytes
  pub failed : Option Error

unfoldable pub new_path_builder : PathBuilder
new_path_builder = record { b = []; failed = none }

unfoldable pub bytes : PathBuilder → Bytes
bytes pb = pb.b

-- A method's body: nothing behind an error, else the segment or the error it meets.
unfoldable pub append : Result Bytes → PathBuilder → Result PathBuilder
append segment pb = elim pb.failed [
  | some e ↦ ok pb
  | none ↦ elim segment [
    | ok written ↦ ok (record pb { b = pb.b ++ written })
    | err e ↦ ok (record pb { failed = some e })
    | panic ↦ panic
  ]
]

unfoldable pub custom : Bytes → PathBuilder → Result PathBuilder
custom content = append (ok content)

unfoldable pub class : ℕ → PathBuilder → Result PathBuilder
class class_id = append (ok (Class.bytes class_id))

unfoldable pub instance_of : ℕ → PathBuilder → Result PathBuilder
instance_of instance_id = append (ok (Instance.bytes instance_id))

unfoldable pub attribute : ℕ → PathBuilder → Result PathBuilder
attribute attribute_id = append (ok (Attribute.bytes attribute_id))

-- The source writes the empty result of a failed marshalIOIPart too.
unfoldable pub symbolic : Bytes → PathBuilder → Result PathBuilder
symbolic symbol = append (marshal_ioi_part symbol)

unfoldable pub element : ℕ → PathBuilder → Result PathBuilder
element element_id = append (ok (Element.bytes element_id))

unfoldable pub port : ℕ → PathBuilder → Result PathBuilder
port port_no = append (ok (put_u8 port_no))

unfoldable pub address : ℕ → PathBuilder → Result PathBuilder
address link = append (ok (Address.bytes link))

unfoldable pub slot : ℕ → PathBuilder → Result PathBuilder
slot slot_no = append (ok (put_u8 slot_no))

unfoldable pub parse : Bytes → PathBuilder → Result PathBuilder
parse path = append (parse_path path)

-- A call of one of the methods.
pub data Call : Type 0 where
  raw : Bytes → Call
  on_class : ℕ → Call
  on_instance : ℕ → Call
  on_attribute : ℕ → Call
  on_symbol : Bytes → Call
  on_element : ℕ → Call
  on_port : ℕ → Call
  on_address : ℕ → Call
  on_slot : ℕ → Call
  on_path : Bytes → Call

unfoldable pub call : Call → PathBuilder → Result PathBuilder
call (raw content) = custom content
call (on_class n) = class n
call (on_instance n) = instance_of n
call (on_attribute n) = attribute n
call (on_symbol s) = symbolic s
call (on_element n) = element n
call (on_port n) = port n
call (on_address n) = address n
call (on_slot n) = slot n
call (on_path s) = parse s

-- A chain of calls, left to right.
unfoldable pub build : List Call → PathBuilder → Result PathBuilder
build [] pb = ok pb
build (c ∷ cs) pb = do pb' ← call c pb; build cs pb'
