-- ===== src/Pack/Tests.antt =====
-- Structures of pack_test.go and of the API's documentation, run and applied.
use gologix.Base.{◌≡◌, refl, [], ◌∷◌, ◌++◌, true, false, some, length, arith}
use gologix.Base.Result.{ok, err, out_of_data}
use gologix.Wire.{Bytes}
use gologix.Types.Values.{uint8, int16, int32, width, put_num}
use gologix.Pack.{
  no_tag, bool, num, nums, str, struct, Fields, end, field, align, write, pad_to, skip_to, enter,
  push_bit, flush, text_bytes, settle, plain, pack_fields, pack_go, pack,
}
use gologix.Pack.Unpack.{unpack}
use gologix.Pack.Leaves.{blank_fields, ArePlain, IsPlain}
use gologix.Pack.RoundTrip.{unpack-pack}
use gologix.Pack.Lost.{bits_and_text, pack-bits_lost}

-- Two bools that share a byte, and a number on the next multiple of four.
abbrev flags_and_number : Fields
flags_and_number =
    field no_tag (bool true) (field no_tag (bool true) (field no_tag (num int32 258) end))

abbrev flags_bytes : Bytes
flags_bytes = 3 ∷ 0 ∷ 0 ∷ 0 ∷ 2 ∷ 1 ∷ 0 ∷ 0 ∷ []

packs_flags : pack flags_and_number ≡ ok (flags_bytes, 8)
unfolding pack pack_fields pack_go enter skip_to pad_to write align push_bit flush plain settle
    width put_num
packs_flags = refl

-- A number, a structure, a string and an array.
abbrev mixed : Fields
mixed = field no_tag (num uint8 7) (
    field no_tag
      (struct (
        field no_tag (num int16 513)
          (field (record { no_pack = true; byte_index = some 3 }) (bool true) end)))
      (field no_tag (str (72 ∷ 105 ∷ [])) (field no_tag (nums uint8 (1 ∷ 2 ∷ 3 ∷ [])) end)))

mixed-ArePlain : ArePlain mixed
unfolding ArePlain IsPlain width
mixed-ArePlain = (
  omega arith,
  (
    (omega arith, (refl, tt)),
    ((refl, omega arith), ((omega arith, (omega arith, (omega arith, tt))), tt)),
  ),
)

unpack-pack_example :
    (b : Bytes) × (pack mixed ≡ ok (b, length b))
    × (unpack (blank_fields mixed) (b ++ 9 ∷ []) ≡ ok ((mixed, length b), 9 ∷ []))
unpack-pack_example = unpack-pack mixed (9 ∷ []) mixed-ArePlain

pack-bits_lost_example :
    (pack (bits_and_text (true ∷ false ∷ []) (72 ∷ [])) ≡ ok (text_bytes (72 ∷ []), 86))
    × (unpack (bits_and_text (false ∷ false ∷ []) []) (text_bytes (72 ∷ [])) ≡ err out_of_data)
pack-bits_lost_example =
    pack-bits_lost (true ∷ false ∷ []) (false ∷ false ∷ []) (72 ∷ []) [] (omega arith) refl
      (omega arith) (omega arith)
