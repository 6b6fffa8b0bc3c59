-- ===== src/Server/Strings.antt =====
-- The strings of a write request: what parseWriteValues (server_connected.go) reads of the elements that it
-- describes, and of those that the client's Serialize (items.go) writes.
use gologix.Base.{
  ℕ, zero, suc, ◌+◌, ◌-◌, ◌/◌, ◌%◌, ◌≤◌, ◌<◌, ◌≡◌, refl, sym, ap, ◌∙◌, List, [], ◌∷◌, ◌++◌, length,
  take, map, All, append_assoc, take-append, take_all, replicate, arith, ltb, if◌then◌else◌,
  append-nil,
}
use gologix.Base.Result.{ok}
use gologix.Wire.{Bytes, put_u16, put_u32, of_u32, read_u8, read_u32}
use gologix.Wire.RoundTrip.{read_u16-put, read_u32-put, read_full-append}
use gologix.Item.Payload.{slot, string_elements, string_element}
use gologix.Item.Payload.Slots.{length-slot}
use gologix.Server.Session.{string}
use gologix.Server.Writes.{
  clamp, cip_string_struct_crc, read_string, read_strings, struct_crc, parse_write_values,
}

abbrev pub FitsSlot : Bytes → Type 0
FitsSlot s = length s ≤ 82

-- The length and the data of a string, without padding.
abbrev pub element_bytes : Bytes → Bytes
element_bytes s = put_u32 (length s) ++ slot 82 s

abbrev pub elements_bytes : List Bytes → Bytes
elements_bytes [] = []
elements_bytes (s ∷ ss) = element_bytes s ++ elements_bytes ss

-- The type, the CRC and the number of elements of a write of strings.
abbrev pub write_header : ℕ → Bytes
write_header qty = 0xA0 ∷ 0x02 ∷ (put_u16 cip_string_struct_crc ++ put_u16 qty)

take-fitting : (n : ℕ) (s : Bytes) → length s ≤ n → take (length s) (slot n s) ≡ s
take-fitting n s h = rw (take_all n s h) (take-append s (replicate (n - length s) 0))

read_string-element_bytes :
    (s rest : Bytes) → FitsSlot s → read_string (element_bytes s ++ rest) ≡ ok (string s, rest)
unfolding read_string
read_string-element_bytes s rest h =
    rw
      (
        read_u32-put (length s) (slot 82 s ++ rest) (omega arith),
        read_full-append 82 (slot 82 s) rest (sym (length-slot 82 s)),
      )
      (let e : clamp (length s) ≡ length s = ground arith in rw (e, take-fitting 82 s h) refl)

read_strings-elements_bytes :
    (ss : List Bytes) (rest : Bytes)
    → All FitsSlot ss
    → read_strings (length ss) (elements_bytes ss ++ rest) ≡ ok (map string ss, rest)
unfolding read_strings
read_strings-elements_bytes [] rest h = refl
read_strings-elements_bytes (s ∷ ss) rest (h, hs) =
    ap (read_strings (suc (length ss))) (append_assoc (element_bytes s) (elements_bytes ss) rest)
    ∙ rw
        (
          read_string-element_bytes s (elements_bytes ss ++ rest) h,
          read_strings-elements_bytes ss rest hs,
        )
        refl

parse-read_strings :
    (qty : ℕ) (b : Bytes)
    → qty < 65536
    → parse_write_values (write_header qty ++ b) ≡ read_strings qty b
unfolding parse_write_values struct_crc read_u8
parse-read_strings qty b h =
    rw (read_full-append 2 (206 ∷ 15 ∷ []) (put_u16 qty ++ b) refl, read_u16-put qty b h) refl

-- Fewer than 2^16 strings of at most 82 bytes, each written as its length and 82 bytes behind the type 0xA0, the CRC
-- of STRING and their number, are what parseWriteValues returns, and what follows them is left.
pub parse_write_values-elements :
    (ss : List Bytes) (rest : Bytes)
    → length ss < 65536
    → All FitsSlot ss
    → parse_write_values (write_header (length ss) ++ (elements_bytes ss ++ rest))
      ≡ ok (map string ss, rest)
parse_write_values-elements ss rest h hs =
    parse-read_strings (length ss) (elements_bytes ss ++ rest) h
    ∙ read_strings-elements_bytes ss rest hs

replicate-add : (a b : ℕ) → replicate {A = ℕ} (a + b) 0 ≡ replicate a 0 ++ replicate b 0
replicate-add zero b = let e : 0 + b ≡ b = omega arith in rw e refl
replicate-add (suc a) b =
    let e : suc a + b ≡ suc (a + b) = omega arith in rw (e, replicate-add a b) refl

slot-add : (n k : ℕ) (s : Bytes) → length s ≤ n → slot (n + k) s ≡ slot n s ++ replicate k 0
slot-add n k s h =
    let wide : take (n + k) s ≡ s = take_all (n + k) s (omega arith) in
    let pads : n + k - length s ≡ (n - length s) + k = omega arith in
    rw (wide, take_all n s h, pads, replicate-add (n - length s) k)
      (sym (append_assoc s (replicate (n - length s) 0) (replicate k 0)))

-- The first element, and its two bytes of padding.
string_element-element_bytes :
    (s : Bytes) → FitsSlot s → string_element s ≡ element_bytes s ++ 0 ∷ 0 ∷ []
unfolding string_element
string_element-element_bytes s h =
    let short : (if ltb 84 (length s) then 84 else length s) ≡ length s = ground arith in
    rw (short, slot-add 82 2 s h) refl

-- Two bytes of padding in front of a length move it up by two bytes.
read_string-shifted :
    (a b : ℕ) (x rest : Bytes)
    → length x ≡ 80
    → 1 ≤ a + b
    → read_string (0 ∷ 0 ∷ a ∷ b ∷ 0 ∷ 0 ∷ (x ++ rest)) ≡ ok (string (0 ∷ 0 ∷ x), rest)
unfolding read_string read_u32
read_string-shifted a b x rest h lo =
    let big : clamp (of_u32 0 0 a b) ≡ 82 = ground arith in
    rw
      (
        big,
        read_full-append 82 (0 ∷ 0 ∷ x) rest (omega (arith, h)),
        take_all 80 x (omega (arith, h)),
      )
      refl

-- The second one, read two bytes early.
read_string-early :
    (t rest : Bytes)
    → 1 ≤ length t
    → length t ≤ 80
    → read_string (0 ∷ 0 ∷ (string_element t ++ rest))
      ≡ ok (string (0 ∷ 0 ∷ slot 80 t), 0 ∷ 0 ∷ 0 ∷ 0 ∷ rest)
read_string-early t rest lo hi =
    ap (λ b. read_string (0 ∷ 0 ∷ b)) (shape t rest hi)
    ∙ read_string-shifted (length t % 256) (length t / 256 % 256) (slot 80 t) (0 ∷ 0 ∷ 0 ∷ 0 ∷ rest)
        (length-slot 80 t) (omega arith)
  where
    shape :
        (t rest : Bytes)
        → length t ≤ 80
        → string_element t ++ rest
          ≡ (length t % 256) ∷ (length t / 256 % 256) ∷ 0 ∷ 0 ∷ (slot 80 t ++ 0 ∷ 0 ∷ 0 ∷ 0 ∷ rest)
    shape t rest hi =
        let short : (if ltb 84 (length t) then 84 else length t) ≡ length t = ground arith in
        let c : length t / 65536 % 256 ≡ 0 = omega arith in
        let d : length t / 16777216 % 256 ≡ 0 = omega arith in
        unfold string_element in
        rw (short, c, d, slot-add 80 4 t hi, append_assoc (slot 80 t) (replicate 4 0) rest) refl

two_elements :
    (s t : Bytes) → string_elements (s ∷ t ∷ []) ≡ string_element s ++ (string_element t ++ [])
unfolding string_elements
two_elements s t = refl

first_padded :
    (s t rest : Bytes)
    → FitsSlot s
    → string_elements (s ∷ t ∷ []) ++ rest ≡ element_bytes s ++ (0 ∷ 0 ∷ (string_element t ++ rest))
first_padded s t rest h =
    rw
      (
        two_elements s t,
        append-nil (string_element t),
        string_element-element_bytes s h,
        append_assoc (element_bytes s ++ 0 ∷ 0 ∷ []) (string_element t) rest,
        append_assoc (element_bytes s) (0 ∷ 0 ∷ []) (string_element t ++ rest),
      )
      refl

-- Two elements as the client writes them have two bytes of padding each, and parseWriteValues reads the length
-- of the second one two bytes early: for strings of at most 82 and 1 to 80 bytes it returns the first, and in
-- place of the second a string that begins with two zero bytes and has 82 bytes.
pub parse_write_values-string_elements :
    (s t rest : Bytes)
    → FitsSlot s
    → 1 ≤ length t
    → length t ≤ 80
    → parse_write_values (write_header 2 ++ (string_elements (s ∷ t ∷ []) ++ rest))
      ≡ ok (string s ∷ string (0 ∷ 0 ∷ slot 80 t) ∷ [], 0 ∷ 0 ∷ 0 ∷ 0 ∷ rest)
unfolding read_strings
parse_write_values-string_elements s t rest h lo hi =
    parse-read_strings 2 (string_elements (s ∷ t ∷ []) ++ rest) (omega arith)
    ∙ rw
        (
          first_padded s t rest h,
          read_string-element_bytes s (0 ∷ 0 ∷ (string_element t ++ rest)) h,
          read_string-early t rest lo hi,
        )
        refl
