-- ===== src/Tests/Entries.antt =====
-- Address maps as the environment gives them.
use Prim.Native.Char.{code}
use distributed_transaction.Prelude.{◌≡◌, refl, nat_eq, string_eq, ◌==◌, [], ◌∷◌, ok, raise}
use distributed_transaction.Remote.Addresses.{
  parse_pairs, parse_address_map, malformed_entry, Parsed, parse_address_map_lem,
}

two_nodes :
    parse_address_map (λ c. code c == 32) "a=x:1, b=y:2," ≡ ok (("a", "x:1") ∷ ("b", "y:2") ∷ [])
unfolding parse_address_map parse_pairs
two_nodes = refl

no_address : parse_address_map (λ c. code c == 32) "a=x:1, b" ≡ raise (malformed_entry "b")
unfolding parse_address_map parse_pairs
no_address = refl

parse_address_map_lem_example :
    Parsed
      (λ c. code c == 32)
      "a=x:1, b=y:2,"
      (parse_address_map (λ c. code c == 32) "a=x:1, b=y:2,")
parse_address_map_lem_example = parse_address_map_lem (λ c. code c == 32) "a=x:1, b=y:2,"
