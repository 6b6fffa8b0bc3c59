-- ===== src/Path/Tests.antt =====
-- Runs of ParsePath, and the theorems at concrete inputs.
use gologix.Base.{◌≡◌, ◌↔◌, refl, [], ◌∷◌, true, arith}
use gologix.Base.Result.{ok, err, panic, out_of_range}
use gologix.Text.{codes, contains, split, remove_all, atoi}
use gologix.Wire.{Bytes}
use gologix.Path.{parse_path}
use gologix.Path.Route.{link, via, IsAddress, print_route, route_bytes, parse_path-print_route}
use gologix.Path.Panics.{starts_with_address, parse_path_panics_iff}

-- The path of a module in slot 0 behind an address, as in path_test.go.
parse_hops :
    parse_path (codes "1, 4, 2, 192.168.2.1, 1, 0")
    ≡ ok (1 ∷ 4 ∷ 0x12 ∷ 11 ∷ 49 ∷ 57 ∷ 50 ∷ 46 ∷ 49 ∷ 54 ∷ 56 ∷ 46 ∷ 50 ∷ 46 ∷ 49 ∷ 1 ∷ 0 ∷ [])
unfolding parse_path contains split remove_all atoi
parse_hops = refl

parse_too_large : parse_path (codes "1,256") ≡ err out_of_range
unfolding parse_path contains split remove_all atoi
parse_too_large = refl

abbrev address : Bytes
address = codes "192.168.2.1"

address-IsAddress : IsAddress address
address-IsAddress = record {
  dotted = unfold contains in refl;
  no_comma = unfold contains in refl;
  no_space = unfold contains in refl;
  no_open = unfold contains in refl;
  no_close = unfold contains in refl;
  short = omega arith;
}

parse_path-print_route_example :
    parse_path (print_route (link 1 ∷ via 2 address ∷ []))
    ≡ ok (route_bytes (link 1 ∷ via 2 address ∷ []))
parse_path-print_route_example =
    parse_path-print_route (link 1) (via 2 address ∷ [])
      (omega arith, ((omega arith, address-IsAddress), tt))

parse_path_panics_iff_example : (parse_path address ≡ panic) ↔ (starts_with_address address ≡ true)
parse_path_panics_iff_example = parse_path_panics_iff address
