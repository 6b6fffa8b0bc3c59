-- ===== src/Server/Symbols.antt =====
-- The list of symbols (buildSymbolObjectInstanceListResponse) and the tags by their instances of class 0xC8
-- (resolveSymbolicTagFromCustomClass): server_unconnected.go.
use gologix.Base.{
  ℕ, zero, suc, ◌+◌, ◌-◌, ◌≤◌, ◌<◌, ◌≡◌, refl, List, [], ◌∷◌, false, some, length, get_elem?, arith,
  ltb, le→ltb, ◌==◌,
}
use gologix.Wire.{Bytes, Reader, read_u16, read_u32, read_full, pure, ◌>>=◌}
use gologix.Server.Session.{TagInfo}
use gologix.Server.Attributes.{sort, tag_of_instance}

-- How a client reads an entry: the number of the instance, the length of the name, the name and the type.
pub record Entry : Type 0 where
  pub id : ℕ
  pub name : Bytes
  pub type : ℕ

unfoldable pub read_entry : Reader Entry
read_entry = do
  id ← read_u32
  len ← read_u16
  name ← read_full len
  type ← read_u16
  pure (record { id = id; name = name; type = type })

unfoldable pub read_entries : ℕ → Reader (List Entry)
read_entries zero = pure []
read_entries (suc n) = do e ← read_entry; es ← read_entries n; pure (e ∷ es)

-- A tag whose name an entry holds whole, and whose type is a CIP type.
pub record IsListed (t : TagInfo) : Type 0 where
  pub name_fits : length t.name ≤ 255
  pub type_fits : t.type < 256

number : ℕ → List TagInfo → List Entry
number i [] = []
number i (t ∷ ts) = record { id = i + 1; name = t.name; type = t.type } ∷ number (i + 1) ts

numbered :
    (i k : ℕ) (ts : List TagInfo) (e : Entry)
    → get_elem? (number i ts) k ≡ some e
    → (t : TagInfo) × (get_elem? ts k ≡ some t)
      × (e.id ≡ i + k + 1)
      × (e.name ≡ t.name)
      × (k < length ts)
unfolding number
numbered i k [] e h = cc
numbered i zero (t ∷ ts) e h = (t, refl, ground arith, ground arith, omega arith)
numbered i (suc k) (t ∷ ts) e h =
    let (u, a, b, c, d) = numbered (i + 1) k ts e h in (u, a, omega arith, c, omega arith)

found :
    (tags : List TagInfo) (k : ℕ) (t : TagInfo)
    → get_elem? (sort tags) k ≡ some t
    → k < length tags
    → tag_of_instance (k + 1) tags ≡ some t.name
unfolding tag_of_instance
found tags k t h l =
    let above : (k + 1 == 0) ≡ false = ground arith in
    let inside : ltb (length tags) (k + 1) ≡ false = le→ltb (length tags) (k + 1) (omega arith) in
    let back : k + 1 - 1 ≡ k = omega arith in rw (above, inside, back, h) refl
