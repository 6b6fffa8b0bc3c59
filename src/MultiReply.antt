-- ===== src/MultiReply.antt =====
-- server_connected.go: the reply to a request of several services; read.go: where the client looks for each
-- service's part of it.
pub mod Offsets
mod Tests
use gologix.Base.{
  ℕ, ◌+◌, ◌*◌, ◌%◌, List, [], ◌∷◌, ◌++◌, Bool, true, false, ◌||◌, length, drop, ltb, ◌==◌,
  if◌then◌else◌,
}
use gologix.Base.Result.{Result, ok, err, panic, bad_status}
use gologix.Wire.{Bytes, put_u16, of_u16}
use gologix.Item.{CipItem, write, bytes, byte, uint16, deserialize}

-- The jump table: where each result begins, counted from the number of results, as a uint16.
unfoldable pub jump_table : ℕ → List Bytes → List ℕ
jump_table pos [] = []
jump_table pos (r ∷ results) = (pos % 65536) ∷ jump_table (pos + length r) results

unfoldable pub words : List ℕ → Bytes
words [] = []
words (w ∷ ws) = put_u16 w ++ words ws

unfoldable pub write_all : List Bytes → CipItem → CipItem
write_all [] item = item
write_all (r ∷ results) item = write_all results (write r item)

-- The second item of sendConnectedReply: the sequence number, the header of the reply, and the payload of
-- connectedMulti: the number of results, the jump table and the results.
unfoldable pub multi_reply : ℕ → List Bytes → CipItem
unfolding jump_table words write_all
multi_reply seq results = write_all results (
    write (words (jump_table ((length results + 1) * 2) results)) (
      write (put_u16 (length results)) (
        write (0x8A ∷ 0 ∷ 0 ∷ 0 ∷ []) (
          write (put_u16 seq)
            (record { id = 0xB1; header_length = 0; content = []; position = 0 })))))

-- A step over an item: its result, and the item behind it.
abbrev pub Cursor : Type 0 → Type 0
Cursor A = CipItem → Result A × CipItem

abbrev continue : {A B : Type 0} → Result A × CipItem → (A → Cursor B) → Result B × CipItem
continue (ok a, item) f = f a item
continue (err e, item) f = (err e, item)
continue (panic, item) f = (panic, item)

infixl 5 ◌>>=◌
abbrev pub ◌>>=◌ : {A B : Type 0} → Cursor A → (A → Cursor B) → Cursor B
◌>>=◌ m f item = continue (m item) f

unfoldable pub words_from : Bytes → List ℕ
words_from (a ∷ b ∷ r) = of_u16 a b ∷ words_from r
words_from (a ∷ []) = []
words_from [] = []

abbrev cons_result : Bytes → Result (List Bytes) → Result (List Bytes)
cons_result b (ok bs) = ok (b ∷ bs)
cons_result b (err e) = err e
cons_result b panic = panic

-- `rb[offset:]` of each offset, a uint16 that 10 is added to. What is parsed there is not modelled here.
unfoldable pub slices : Bytes → List ℕ → Result (List Bytes)
slices rb [] = ok []
slices rb (o ∷ os) =
    let rest = slices rb os in
    if ltb (length rb) ((o + 10) % 65536)
    then panic
    else cons_result (drop ((o + 10) % 65536) rb) rest

-- The header of the reply and the offset table, and what stands at each offset in the item's bytes. The
-- status is OK or that of an embedded service's error.
unfoldable pub locate : Cursor (List Bytes)
unfolding slices words_from
locate = do
  sequence ← uint16
  service ← byte
  padding ← byte
  status ← uint16
  count ← uint16
  table ←
      (if status == 0 || status == 0x1E
        then deserialize (2 * count)
        else (λ item. (err bad_status, item)))
  λ item. (slices (bytes item) (words_from table), item)
