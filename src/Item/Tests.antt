-- ===== src/Item/Tests.antt =====
-- Runs of the items, and the theorems at concrete inputs.
use gologix.Base.{◌≡◌, refl, [], ◌∷◌, ◌++◌, arith, drop, map}
use gologix.Base.Result.{ok, err, out_of_data}
use gologix.Wire.{put_u8, put_u16, put_u32, put_u64}
use gologix.Item.{CipItem, byte, uint16, uint32, uint64, serialize_items, read_items, reset}
use gologix.Item.ListRoundTrip.{read_items-serialize_items}
use gologix.Item.Cursor.{Reads, unsigned_methods_read}

abbrev null_item : CipItem
null_item = record { id = 0; header_length = 0; content = []; position = 0 }

abbrev data_item : CipItem
data_item = record { id = 0xB2; header_length = 3; content = 1 ∷ 2 ∷ 3 ∷ []; position = 1 }

uint16_run : uint16 data_item ≡ (ok 770, record data_item { position = 3 })
unfolding uint16
uint16_run = refl

uint32_run : uint32 data_item ≡ (err out_of_data, data_item)
unfolding uint32
uint32_run = refl

read_items-serialize_items_example :
    read_items (drop 6 (serialize_items (null_item ∷ data_item ∷ [])) ++ (7 ∷ []))
    ≡ ok (map reset (null_item ∷ data_item ∷ []), 7 ∷ [])
read_items-serialize_items_example =
    read_items-serialize_items (null_item ∷ data_item ∷ []) (7 ∷ []) (omega arith) (
      record { id_fits = omega arith; length_fits = omega arith; length_matches = refl },
      (record { id_fits = omega arith; length_fits = omega arith; length_matches = refl }, tt),
    )

unsigned_methods_read_example :
    Reads 1 put_u8 byte data_item
    × Reads 2 put_u16 uint16 data_item
    × Reads 4 put_u32 uint32 data_item
    × Reads 8 put_u64 uint64 data_item
unsigned_methods_read_example = unsigned_methods_read data_item (omega arith)
