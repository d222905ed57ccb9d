-- ===== src/Remote/Addresses.antt =====
-- docker/raft_node_entrypoint.py and docker/coordinator_entrypoint.py: `parse_address_map`, which
-- both declare, over the texts' characters. Which characters `strip` takes off is a parameter.
use Prim.Native.Char.{code, Char}
use distributed_transaction.Prelude.{
  ℕ, ◌<◌, ◌≡◌, ◌≢◌, refl, sym, ap, ◌∙◌, true, not, get, get-put, nat_eq, string_eq, eq_iff, ◌==◌,
  String, Bool, false, ◌||◌, ◌&&◌, Option, none, some, List, [], ◌∷◌, length, Dict, put,
  if◌then◌else◌, Result, ok, raise, ◌>>=◌, Bool-cases, inl, inr, ◌⊎◌, arith, All,
}

-- the code points of "," and "="
abbrev pub comma : ℕ
comma = 44

abbrev pub equals : ℕ
equals = 61

-- the text before the first character with a code, and the text after it, if there is one
abbrev pub cut : ℕ → String → String × Option String
cut sep String.[] = ("", none)
cut sep (String.◌∷◌ c s) =
    let rest = cut sep s in if code c == sep then ("", some s) else (String.◌∷◌ c rest.0, rest.1)

-- `pair.partition("=")`, without the separator
abbrev pub or_nothing : Option String → String
or_nothing none = ""
or_nothing (some s) = s

abbrev pub partition_at : ℕ → String → String × String
partition_at sep s = let r = cut sep s in (r.0, or_nothing r.1)

-- `value.split(",")`: the first piece, and those after it
abbrev pub split_pieces : ℕ → String → String × List String
split_pieces sep String.[] = ("", [])
split_pieces sep (String.◌∷◌ c s) =
    let rest = split_pieces sep s in
    if code c == sep then ("", rest.0 ∷ rest.1) else (String.◌∷◌ c rest.0, rest.1)

abbrev pub split_on : ℕ → String → List String
split_on sep s = let r = split_pieces sep s in r.0 ∷ r.1

no_cons : {A : Type 0} {x : A} {xs : List A} → ◌≡◌ {A = List A} (x ∷ xs) [] → ⊥
no_cons h = cc

apart_from : (s : String) → (s == "") ≡ false → s ≢ ""
apart_from s h e = ground (arith, eq_iff s "")

-- the first of two texts that is there
abbrev pub or_else : Option String → Option String → Option String
or_else none o = o
or_else (some s) o = some s

or_else-none : (o : Option String) → or_else o none ≡ o
or_else-none none = refl
or_else-none (some s) = refl

pub data AddressError : Type 0 where
  malformed_entry : String → AddressError
  none_parsed : String → AddressError

-- `if not addresses: raise ...`
abbrev pub checked : String → Dict String String → Result AddressError (Dict String String)
checked value [] = raise (none_parsed value)
checked value (e ∷ es) = ok (e ∷ es)

module _ (is_space : Char → Bool) where
  abbrev pub strip_left : String → String
  strip_left String.[] = ""
  strip_left (String.◌∷◌ c s) =
      let rest = strip_left s in if is_space c then rest else String.◌∷◌ c s

  abbrev pub strip_right : String → String
  strip_right String.[] = ""
  strip_right (String.◌∷◌ c s) =
      let rest = strip_right s in if is_space c && (rest == "") then "" else String.◌∷◌ c rest

  -- `pair.strip()`
  abbrev pub strip : String → String
  strip s = strip_right (strip_left s)

  -- the loop over the pairs
  unfoldable pub parse_pairs :
      List String → Dict String String → Result AddressError (Dict String String)
  parse_pairs [] addresses = ok addresses
  parse_pairs (piece ∷ pieces) addresses =
      let pair = strip piece in
      let (node_id, address) = partition_at equals pair in
      let skipped = parse_pairs pieces addresses in
      let taken = parse_pairs pieces (put node_id address addresses) in
      if pair == ""
      then skipped
      else if (node_id == "") || (address == "")
      then raise (malformed_entry pair)
      else taken

  unfoldable pub parse_address_map : String → Result AddressError (Dict String String)
  parse_address_map value = do
    addresses ← parse_pairs (split_on comma value) []
    checked value addresses

  -- a node and its address, neither of them empty
  abbrev pub IsFull : String × String → Type 0
  IsFull e = (e.0 ≢ "") × (e.1 ≢ "")

  put-IsFull :
      (k x : String) (d : Dict String String)
      → k ≢ ""
      → x ≢ ""
      → All IsFull d
      → All IsFull (put k x d)
  put-IsFull k x [] hk hx a = ((hk, hx), tt)
  put-IsFull k x ((j, y) ∷ d) hk hx a = elim (Bool-cases (j == k)) [
    | inl same ↦ rw same ((a.0.0, hx), a.1)
    | inr other ↦ rw other (a.0, put-IsFull k x d hk hx a.1)
  ]

  not_empty_put : (k x : String) (d : Dict String String) → put k x d ≡ [] → ⊥
  not_empty_put k x [] h = no_cons h
  not_empty_put k x ((j, y) ∷ d) h = elim (Bool-cases (j == k)) [
    | inl same ↦ no_cons (rw same at h)
    | inr other ↦ no_cons (rw other at h)
  ]

  -- a pair without a node or without an address
  abbrev pub IsMalformed : String → Type 0
  IsMalformed pair =
      (pair ≢ "") × (((partition_at equals pair).0 ≡ "") ⊎ ((partition_at equals pair).1 ≡ ""))

  full_fits : (pair : String) → IsFull (partition_at equals pair) → IsMalformed pair → ⊥
  full_fits pair full (there, inl nameless) = full.0 nameless
  full_fits pair full (there, inr nowhere) = full.1 nowhere

  -- the first piece that is malformed, stripped
  abbrev pub IsFirstMalformed : List String → String → Type 0
  IsFirstMalformed [] pair = ⊥
  IsFirstMalformed (piece ∷ pieces) pair =
      ((strip piece ≡ pair) × IsMalformed pair)
      ⊎ ((IsMalformed (strip piece) → ⊥) × IsFirstMalformed pieces pair)

  -- the address that a piece gives to a node
  abbrev address_in : String → String → Option String
  address_in v piece =
      let (node_id, address) = partition_at equals (strip piece) in
      if (strip piece == "") || not (node_id == v) then none else some address

  -- the address that the last piece naming a node gives to it
  abbrev pub last_address : String → List String → Option String
  last_address v [] = none
  last_address v (piece ∷ pieces) = or_else (last_address v pieces) (address_in v piece)

  -- what the loop has made of some pieces, on top of the addresses before
  abbrev Read : List String → Dict String String → Result AddressError (Dict String String) → Type 0
  Read pieces before (ok d) =
      All IsFull d
      × (d ≡ [] → (before ≡ []) × All (λ piece. strip piece ≡ "") pieces)
      × All (λ piece. IsMalformed (strip piece) → ⊥) pieces
      × ((v : String) → get v d ≡ or_else (last_address v pieces) (get v before))
  Read pieces before (raise (malformed_entry pair)) = IsFirstMalformed pieces pair
  Read pieces before (raise (none_parsed v)) = ⊥

  Read-blank :
      (piece : String) (pieces : List String) (before : Dict String String)
      (r : Result AddressError (Dict String String))
      → strip piece ≡ ""
      → Read pieces before r
      → Read (piece ∷ pieces) before r
  Read-blank piece pieces before (ok d) blank (a, f, well, found) = (
    a,
    λ e. let (b, all) = f e in (b, (blank, all)),
    ((λ m. m.0 blank), well),
    λ v. found v ∙ ap (λ (o : Option String). or_else o (get v before)) (skip v),
  )
    where
      skip :
          (v : String)
          → last_address v pieces ≡ or_else (last_address v pieces) (address_in v piece)
      skip v = rw (blank, partition_at, address_in) (sym (or_else-none (last_address v pieces)))
  Read-blank piece pieces before (raise (malformed_entry pair)) blank h = inr ((λ m. m.0 blank), h)
  Read-blank piece pieces before (raise (none_parsed v)) blank h = h

  Read-put :
      (piece : String) (pieces : List String) (before : Dict String String)
      (r : Result AddressError (Dict String String))
      → (strip piece == "") ≡ false
      → IsFull (partition_at equals (strip piece))
      → Read pieces
          (put (partition_at equals (strip piece)).0 (partition_at equals (strip piece)).1 before)
          r
      → Read (piece ∷ pieces) before r
  Read-put piece pieces before (ok d) there full (a, f, well, found) =
      let (k, x) = partition_at equals (strip piece) in
      (
        a,
        λ e. absurd (not_empty_put k x before (f e).0),
        (full_fits (strip piece) full, well),
        λ v. found v ∙ taken v,
      )
    where
      named :
          (later old : Option String) (same : Bool) (x : String)
          → or_else later (if same then some x else old)
            ≡ or_else (or_else later (if not same then none else some x)) old
      named none old true x = refl
      named none old false x = refl
      named (some y) old same x = refl

      taken :
          (v : String)
          → or_else (last_address v pieces) (
              get v (
                put
                  (partition_at equals (strip piece)).0
                  (partition_at equals (strip piece)).1
                  before))
            ≡ or_else (last_address v (piece ∷ pieces)) (get v before)
      taken v =
          let (k, x) = partition_at equals (strip piece) in
          rw (get-put k v x before, there) (named (last_address v pieces) (get v before) (k == v) x)
  Read-put piece pieces before (raise (malformed_entry pair)) there full h =
      inr (full_fits (strip piece) full, h)
  Read-put piece pieces before (raise (none_parsed v)) there full h = h

  parse_pairs-Read :
      (pieces : List String) (before : Dict String String)
      → All IsFull before
      → Read pieces before (parse_pairs pieces before)
  unfolding parse_pairs
  parse_pairs-Read [] before a = (a, (λ e. (e, tt)), tt, λ v. refl)
  parse_pairs-Read (piece ∷ pieces) before a =
      let pair = strip piece in
      let k = (partition_at equals pair).0 in
      let x = (partition_at equals pair).1 in
      elim (Bool-cases (pair == "")) [
        | inl blank ↦
            rw (blank, parse_pairs)
              (Read-blank piece pieces before _ ((eq_iff pair "").0 blank)
                (parse_pairs-Read pieces before a))
        | inr there ↦ elim (Bool-cases (k == "")) [
          | inl nameless ↦
              rw (there, nameless, parse_pairs)
                (inl (refl, (apart_from pair there, inl ((eq_iff k "").0 nameless))))
          | inr named ↦ elim (Bool-cases (x == "")) [
            | inl nowhere ↦
                rw (there, named, nowhere, parse_pairs)
                  (inl (refl, (apart_from pair there, inr ((eq_iff x "").0 nowhere))))
            | inr placed ↦
                let full : IsFull (k, x) = (apart_from k named, apart_from x placed) in
                rw (there, named, placed, parse_pairs)
                  (Read-put piece pieces before _ there full (
                    parse_pairs-Read pieces (put k x before)
                      (put-IsFull k x before full.0 full.1 a)))
          ]
        ]
      ]

  -- what the parse of a text says of the text
  abbrev pub Parsed : String → Result AddressError (Dict String String) → Type 0
  Parsed value (ok d) =
      (0 < length d)
      × All IsFull d
      × All (λ piece. IsMalformed (strip piece) → ⊥) (split_on comma value)
      × ((v : String) → get v d ≡ last_address v (split_on comma value))
  Parsed value (raise (malformed_entry pair)) = IsFirstMalformed (split_on comma value) pair
  Parsed value (raise (none_parsed v)) =
      (v ≡ value) × All (λ piece. strip piece ≡ "") (split_on comma value)

  Parsed-checked :
      (value : String) (r : Result AddressError (Dict String String))
      → Read (split_on comma value) [] r
      → Parsed value (r >>= λ d. checked value d)
  Parsed-checked value (ok []) (a, f, well, found) = (refl, (f refl).1)
  Parsed-checked value (ok (e ∷ d)) (a, f, well, found) =
      (omega arith, a, well, λ v. found v ∙ or_else-none (last_address v (split_on comma value)))
  Parsed-checked value (raise (malformed_entry pair)) h = h
  Parsed-checked value (raise (none_parsed v)) h = absurd h

  -- `parse_address_map` looks at the pieces of a text between commas, stripped. It returns where one
  -- of them is not blank, and each that is not blank has something before and something after its
  -- first "="; the map then gives to a node what the last piece that names it has after its "=", and
  -- nothing to another, and no name and no address in it is empty. It raises for the first piece
  -- that is malformed, with that piece, and for no addresses, with the text, where every piece is
  -- blank.
  pub parse_address_map_lem : (value : String) → Parsed value (parse_address_map value)
  unfolding parse_address_map
  parse_address_map_lem value =
      Parsed-checked value _ (parse_pairs-Read (split_on comma value) [] tt)
