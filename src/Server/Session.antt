-- ===== src/Server/Session.antt =====
-- server.go: what one connection of the server keeps (serverTCPHandler), with what it shares with the
-- others, and the actions on it.
use gologix.Base.{ℕ, List, [], ◌∷◌, ◌++◌, Bool, true, false, Option, length}
use gologix.Base.Int.{ℤ}
use gologix.Base.Result.{Result, ok, err, panic, out_of_data, Error}
use gologix.Wire.{Bytes, Reader, of_u16}
use gologix.Item.Payload.{Payload, text, texts, fixed_size, refused}
use gologix.Types.Values.{
  NumType, Value, truth, num, block, GoVar, bool_var, num_var, string_var, num_slice, string_slice,
  other_var, put_num,
}
use gologix.Identity.{AttributeValue, Ip4}
use gologix.Connections.{Manager}

-- One value of a tag: what readValue gives, or a string.
pub data Element : Type 0 where
  plain : Value → Element
  string : Bytes → Element

-- What an endpoint is given and gives: one value, a slice of numbers of one type, a []string, a []any,
-- or a value of another type, with what GoVarToCIPType and Serialize make of it.
pub data Datum : Type 0 where
  one : Element → Datum
  numbers : NumType → List ℕ → Datum
  strings : List Bytes → Datum
  many : List Element → Datum
  other : GoVar → Payload → Datum

-- ServerTagInfo
pub record TagInfo : Type 0 where
  pub name : Bytes
  pub type : ℕ

-- The endpoints behind the router, over a state `W` that they share, and the settings of the server. The
-- endpoints are a CIPEndpoint each; `tag_list` is none for one that is no TagLister. `random` gives what
-- rand.Uint32 returns, and `other_attribute` gives the attributes of other types.
pub record Env (W E : Type 0) : Type 0 where
  pub tag_read : E → Bytes → ℤ → W → Result Datum × W
  pub tag_write : E → Bytes → Datum → W → Result (Unit {0}) × W
  pub tag_list : E → W → Option (List TagInfo)
  pub router : List (Bytes × E)
  pub attributes : ℕ → Option AttributeValue
  pub other_attribute : ℕ → Datum
  pub local_ip : Option Ip4
  pub local_port : ℕ
  pub random : ℕ → ℕ

-- serverTCPHandler, the connections of the server and the state of the endpoints. `input` is what the
-- peer has sent and the handler has not read, `sent` the packets that were written, `writable` whether
-- the peer still takes them, and `drawn` the number of random numbers that were used.
pub record Session (W : Type 0) : Type 0 where
  pub input : Bytes
  pub sent : List Bytes
  pub writable : Bool
  pub handle : ℕ
  pub options : ℕ
  pub context : ℕ
  pub ot : ℕ
  pub to : ℕ
  pub sequencer : ℕ
  pub drawn : ℕ
  pub connections : Manager
  pub world : W

abbrev pub Action : Type 0 → Type 0 → Type 0
Action W A = Session W → Result A × Session W

module _ {W : Type 0} where
  abbrev pub pure : {A : Type 0} → A → Action W A
  pure a s = (ok a, s)

  abbrev pub fail : {A : Type 0} → Error → Action W A
  fail e s = (err e, s)

  abbrev pub lift : {A : Type 0} → Result A → Action W A
  lift r s = (r, s)

  abbrev pub continue :
      {A B : Type 0} → Result A × Session W → (A → Action W B) → Result B × Session W
  continue (ok a, s) f = f a s
  continue (err e, s) f = (err e, s)
  continue (panic, s) f = (panic, s)

  infixl 5 ◌>>=◌ ◌>>◌
  abbrev pub ◌>>=◌ : {A B : Type 0} → Action W A → (A → Action W B) → Action W B
  ◌>>=◌ m f s = continue (m s) f

  abbrev pub ◌>>◌ : {B : Type 0} → Action W (Unit {0}) → Action W B → Action W B
  m >> n = m >>= λ _. n

  -- A read from the socket.
  unfoldable pub consumed : {A : Type 0} → Result (A × Bytes) → Session W → Result A × Session W
  consumed (ok (a, rest)) s = (ok a, record s { input = rest })
  consumed (err e) s = (err e, s)
  consumed panic s = (panic, s)

  unfoldable pub receive : {A : Type 0} → Reader A → Action W A
  unfolding consumed
  receive m s = consumed (m s.input) s

  abbrev pub gets : {A : Type 0} → (Session W → A) → Action W A
  gets f s = (ok (f s), s)

  -- An error as a value, for a handler that goes on behind it.
  unfoldable pub as_value : {A : Type 0} → Result A × Session W → Result (Result A) × Session W
  as_value (ok a, s) = (ok (ok a), s)
  as_value (err e, s) = (ok (err e), s)
  as_value (panic, s) = (panic, s)

  unfoldable pub tried : {A : Type 0} → Action W A → Action W (Result A)
  unfolding as_value
  tried m s = as_value (m s)

  -- An error is answered first, and returned whatever becomes of the answer.
  unfoldable pub returned :
      {A : Type 0} → Error → Result (Unit {0}) × Session W → Result A × Session W
  returned e (ok u, s) = (err e, s)
  returned e (err e2, s) = (err e, s)
  returned e (panic, s) = (panic, s)

  unfoldable pub or_reply_from :
      {A : Type 0}
      → Result A × Session W
      → Action W (Unit {0})
      → (A → Action W (Unit {0}))
      → Result (Unit {0}) × Session W
  unfolding returned
  or_reply_from (ok a, s) reply f = f a s
  or_reply_from (err e, s) reply f = returned e (reply s)
  or_reply_from (panic, s) reply f = (panic, s)

  unfoldable pub or_reply :
      {A : Type 0}
      → Action W A
      → Action W (Unit {0})
      → (A → Action W (Unit {0}))
      → Action W (Unit {0})
  unfolding or_reply_from
  or_reply m reply f s = or_reply_from (m s) reply f

-- `Byte`, `Uint16` and `Int16` of an item, over the bytes behind its position.
unfoldable pub item_byte : Reader ℕ
item_byte [] = err out_of_data
item_byte (a ∷ r) = ok (a, r)

unfoldable pub item_uint16 : Reader ℕ
item_uint16 [] = err out_of_data
item_uint16 (a ∷ []) = err out_of_data
item_uint16 (a ∷ b ∷ r) = ok (of_u16 a b, r)

nums_bytes : NumType → List ℕ → Bytes
nums_bytes n [] = []
nums_bytes n (v ∷ vs) = put_num n v ++ nums_bytes n vs

-- What Serialize makes of a datum; binary.Write refuses a []any.
unfoldable pub payload : Datum → Payload
unfolding nums_bytes put_num
payload (one (plain (truth true))) = fixed_size (1 ∷ [])
payload (one (plain (truth false))) = fixed_size (0 ∷ [])
payload (one (plain (num n v))) = fixed_size (put_num n v)
payload (one (plain (block b))) = fixed_size b
payload (one (string x)) = text x
payload (numbers n vs) = fixed_size (nums_bytes n vs)
payload (strings ss) = texts ss
payload (many vs) = refused
payload (other g p) = p

-- What GoVarToCIPType looks at.
unfoldable pub go_var : Datum → GoVar
go_var (one (plain (truth x))) = bool_var
go_var (one (plain (num n v))) = num_var n
go_var (one (plain (block b))) = other_var
go_var (one (string x)) = string_var
go_var (numbers n vs) = num_slice n (length vs)
go_var (strings ss) = string_slice (length ss)
go_var (many vs) = other_var
go_var (other g p) = g
