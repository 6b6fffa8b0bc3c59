-- ===== src/Server/Attributes.antt =====
-- server_unconnected.go: the attributes of the Identity and the Program object, and the list of symbols.
use gologix.Base.{
  ℕ, ◌+◌, ◌-◌, List, [], ◌∷◌, ◌++◌, Bool, true, false, ◌||◌, Option, none, some, length, get_elem?,
  ltb, ◌==◌, if◌then◌else◌,
}
use gologix.Base.Result.{Result, ok, ◌>>=◌}
use gologix.Wire.{Bytes, put_u8, put_u16, put_u32}
use gologix.Identity.{AttributeValue, as_int16, as_uint32, as_string, short_name}
use gologix.Server.Session.{TagInfo}

-- The bytes of buildIdentityGetAttributesAllResponse, for attributes that have been found.
unfoldable pub identity_bytes : ℕ → ℕ → ℕ → ℕ → ℕ → ℕ → Bytes → Bytes
identity_bytes vendor device_type product_code revision status serial name =
    put_u16 vendor
    ++ (put_u16 device_type
        ++ (put_u16 product_code
            ++ (put_u16 revision
                ++ (put_u16 status ++ (put_u32 serial ++ (put_u8 (length name) ++ name))))))

-- buildIdentityGetAttributesAllResponse
unfoldable pub build_identity_get_attributes_all_response :
    (ℕ → Option AttributeValue) → Result Bytes
unfolding identity_bytes
build_identity_get_attributes_all_response attrs = do
  vendor ← as_int16 (attrs 1)
  device_type ← as_int16 (attrs 2)
  product_code ← as_int16 (attrs 3)
  revision ← as_int16 (attrs 4)
  status ← as_int16 (attrs 5)
  serial ← as_uint32 (attrs 6)
  name ← as_string (attrs 7)
  ok (identity_bytes vendor device_type product_code revision status serial (short_name name))

-- buildProgramObjectGetAttributesAllResponse
unfoldable pub build_program_object_get_attributes_all_response :
    (ℕ → Option AttributeValue) → Result Bytes
build_program_object_get_attributes_all_response attrs = do
  name ← as_string (attrs 7)
  ok (put_u8 (length (short_name name)) ++ short_name name)

-- `<` on strings.
unfoldable pub less : Bytes → Bytes → Bool
less s [] = false
less [] (y ∷ t) = true
less (x ∷ s) (y ∷ t) = if x == y then less s t else ltb x y

-- sort.Slice by name. (Names are the keys of a map: no two are equal.)
unfoldable pub insert_tag : TagInfo → List TagInfo → List TagInfo
insert_tag tag [] = tag ∷ []
insert_tag tag (t ∷ tags) =
    let rest = insert_tag tag tags in if less t.name tag.name then t ∷ rest else tag ∷ t ∷ tags

unfoldable pub sort : List TagInfo → List TagInfo
unfolding insert_tag
sort [] = []
sort (t ∷ tags) = insert_tag t (sort tags)

-- One instance of the list: its number, the name and the type.
unfoldable pub symbol : ℕ → TagInfo → Bytes
symbol instance_id tag =
    put_u32 instance_id
    ++ (put_u16 (length (short_name tag.name)) ++ (short_name tag.name ++ put_u16 tag.type))

-- The loop from index `i` on.
unfoldable pub symbols : ℕ → ℕ → List TagInfo → Bytes
unfolding symbol
symbols start i [] = []
symbols start i (t ∷ tags) =
    let rest = symbols start (i + 1) tags in
    if ltb (i + 1) start then rest else symbol (i + 1) t ++ rest

-- buildSymbolObjectInstanceListResponse
unfoldable pub build_symbol_object_instance_list_response : List TagInfo → ℕ → Bytes
unfolding sort symbols
build_symbol_object_instance_list_response tags start_instance =
    symbols start_instance 0 (sort tags)

-- What resolveSymbolicTagFromCustomClass does with the tags of the provider.
unfoldable pub tag_of_instance : ℕ → List TagInfo → Option Bytes
unfolding sort
tag_of_instance instance_id tags =
    if instance_id == 0 || ltb (length tags) instance_id
    then none
    else elim (get_elem? (sort tags) (instance_id - 1)) [ none ↦ none | some t ↦ some t.name ]
