-- ===== src/Path/Route.antt =====
-- A route of hops, written the way ParsePath reads it, and the bytes that a CIP route has for it.
use Prim.Native.Nat.{bit_or}
use gologix.Base.{
  ℕ, ◌<◌, ◌≡◌, ◌≢◌, refl, sym, ap, ◌∙◌, List, [], ◌∷◌, ◌++◌, true, arith, All, length, append_assoc,
  append-nil,
}
use gologix.Base.Result.{ok, ◌>>=◌}
use gologix.Wire.{Bytes}
use gologix.Text.{contains, split, join, decimal}
use gologix.Text.Decimal.{atoi-decimal, contains-decimal, decimal-ne-nil}
use gologix.Text.Split.{Lacks, split-join, contains-join, remove_all-Lacks}
use gologix.Path.{mark_last, add_part, add_number, add_address, parse_parts, strip, parse_path}
use native.Mathlib.Nat.{mod-eq_of_lt}

-- A hop to a port or a slot, or through a port to an IP address.
pub data Hop : Type 0 where
  link : ℕ → Hop
  via : ℕ → Bytes → Hop

-- The characters that separate or are taken out, in an address that has a dot.
pub record IsAddress (a : Bytes) : Type 0 where
  pub dotted : contains b'.' a ≡ true
  pub no_comma : Lacks b',' a
  pub no_space : Lacks b' ' a
  pub no_open : Lacks b'[' a
  pub no_close : Lacks b']' a
  pub short : length a < 256

abbrev pub IsHop : Hop → Type 0
IsHop (link n) = n < 256
IsHop (via n a) = (n < 256) × IsAddress a

unfoldable pub hop_parts : List Hop → List Bytes
hop_parts [] = []
hop_parts (link n ∷ hops) = decimal n ∷ hop_parts hops
hop_parts (via n a ∷ hops) = decimal n ∷ a ∷ hop_parts hops

unfoldable pub route_bytes : List Hop → Bytes
route_bytes [] = []
route_bytes (link n ∷ hops) = n ∷ route_bytes hops
route_bytes (via n a ∷ hops) = bit_or n 16 ∷ length a ∷ (a ++ route_bytes hops)

mark_last-append : (b : Bytes) (n : ℕ) → mark_last (b ++ (n ∷ [])) ≡ ok (b ++ (bit_or n 16 ∷ []))
unfolding mark_last
mark_last-append [] n = refl
mark_last-append (x ∷ []) n = refl
mark_last-append (x ∷ y ∷ b) n = ap (λ r. r >>= λ s. ok (x ∷ s)) (mark_last-append (y ∷ b) n)

add_part-decimal : (n : ℕ) (b : Bytes) → n < 256 → add_part (decimal n) b ≡ ok (b ++ (n ∷ []))
unfolding add_part add_number
add_part-decimal n b h =
    rw (contains-decimal b'.' n refl, atoi-decimal n (omega arith)) (ground arith)

add_part-address :
    (a : Bytes) (n : ℕ) (b : Bytes)
    → IsAddress a
    → add_part a (b ++ (n ∷ [])) ≡ ok (b ++ (bit_or n 16 ∷ length a ∷ a))
unfolding add_part add_address
add_part-address a n b h = rw (h.dotted, mark_last-append b n, mod-eq_of_lt h.short, append_assoc)

parse_parts-hops :
    (hops : List Hop) (b : Bytes)
    → All IsHop hops
    → parse_parts (hop_parts hops) b ≡ ok (b ++ route_bytes hops)
unfolding parse_parts hop_parts route_bytes
parse_parts-hops [] b h = rw append-nil
parse_parts-hops (link n ∷ hops) b (h, hs) =
    rw (add_part-decimal n b h) (
      parse_parts-hops hops (b ++ (n ∷ [])) hs ∙ ap ok (append_assoc b (n ∷ []) (route_bytes hops)))
parse_parts-hops (via n a ∷ hops) b ((h, ha), hs) =
    rw (add_part-decimal n b h, add_part-address a n b ha)
      (parse_parts-hops hops _ hs ∙ ap ok (append_assoc b _ (route_bytes hops)))

hop_parts-Lacks :
    (c : ℕ) (hops : List Hop)
    → ((n : ℕ) → Lacks c (decimal n))
    → ((a : Bytes) → IsAddress a → Lacks c a)
    → All IsHop hops
    → All (Lacks c) (hop_parts hops)
unfolding hop_parts
hop_parts-Lacks c [] d a h = tt
hop_parts-Lacks c (link n ∷ hops) d a (h, hs) = (d n, hop_parts-Lacks c hops d a hs)
hop_parts-Lacks c (via n x ∷ hops) d a ((h, hx), hs) =
    (d n, (a x hx, hop_parts-Lacks c hops d a hs))

parse_path-split :
    (s part : Bytes) (parts : List Bytes)
    → strip s ≡ s
    → split b',' s ≡ part ∷ parts
    → part ≢ []
    → parse_path s ≡ parse_parts (part ∷ parts) []
unfolding parse_path split
parse_path-split [] part parts e p n = absurd (n (cc p))
parse_path-split (c ∷ s) part parts e p n = rw (e, p)

-- The text of a route: the parts of its hops, joined by commas.
unfoldable pub print_route : List Hop → Bytes
print_route hops = join b',' (hop_parts hops)

strip-print_route : (hops : List Hop) → All IsHop hops → strip (print_route hops) ≡ print_route hops
unfolding strip print_route
strip-print_route hops h =
    let no_space =
      contains-join b' ' b',' (hop_parts hops) refl refl
        (hop_parts-Lacks b' ' hops (λ n. contains-decimal b' ' n refl) (λ a ha. ha.no_space) h) in
    let no_open =
      contains-join b'[' b',' (hop_parts hops) refl refl
        (hop_parts-Lacks b'[' hops (λ n. contains-decimal b'[' n refl) (λ a ha. ha.no_open) h) in
    let no_close =
      contains-join b']' b',' (hop_parts hops) refl refl
        (hop_parts-Lacks b']' hops (λ n. contains-decimal b']' n refl) (λ a ha. ha.no_close) h) in
    rw (
      remove_all-Lacks b' ' _ no_space,
      remove_all-Lacks b'[' _ no_open,
      remove_all-Lacks b']' _ no_close,
    )

split-print_route :
    (p : Bytes) (ps : List Bytes) (hops : List Hop)
    → hop_parts hops ≡ p ∷ ps
    → All IsHop hops
    → split b',' (print_route hops) ≡ p ∷ ps
unfolding print_route
split-print_route p ps hops e h = rw e (
    split-join b',' p ps (
      rw e at
        (hop_parts-Lacks b',' hops (λ n. contains-decimal b',' n refl) (λ a ha. ha.no_comma) h)))

hop_parts_head :
    (hop : Hop) (hops : List Hop)
    → (n : ℕ) × (ps : List Bytes) × (hop_parts (hop ∷ hops) ≡ decimal n ∷ ps)
unfolding hop_parts
hop_parts_head (link n) hops = (n, hop_parts hops, refl)
hop_parts_head (via n a) hops = (n, a ∷ hop_parts hops, refl)

-- ParsePath turns the text of a route of at least one hop into the route's bytes: each number below
-- 256 is one byte, and a number before a dotted address (below 256 characters, none of them a comma,
-- a space or a bracket) gets bit 4 and is followed by the address's length and its characters.
pub parse_path-print_route :
    (hop : Hop) (hops : List Hop)
    → All IsHop (hop ∷ hops)
    → parse_path (print_route (hop ∷ hops)) ≡ ok (route_bytes (hop ∷ hops))
parse_path-print_route hop hops h =
    let (n, ps, e) = hop_parts_head hop hops in
    parse_path-split _ (decimal n) ps (strip-print_route (hop ∷ hops) h)
      (split-print_route (decimal n) ps (hop ∷ hops) e h) (decimal-ne-nil n)
    ∙ ap (λ parts. parse_parts parts []) (sym e)
    ∙ parse_parts-hops (hop ∷ hops) [] h
