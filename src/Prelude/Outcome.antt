-- ===== src/Prelude/Outcome.antt =====
-- What a Python call gives: a value, or a raised exception.
use mathlib.Core.Path.{◌≡◌, refl}
use mathlib.Core.Bool.{Bool, true, false}

pub data Result (E A : Type 0) : Type 0 where
  raise : E → Result E A
  ok : A → Result E A

module _ {E : Type 0} where
  -- `if c: raise e`
  abbrev pub raise_if : Bool → E → Result E (Unit {0})
  raise_if false exception = ok tt
  raise_if true exception = raise exception

  pub ok-injective : {A : Type 0} {a b : A} → ◌≡◌ {A = Result E A} (ok a) (ok b) → a ≡ b
  ok-injective same = cc

  infixl 5 ◌>>=◌ ◌>>◌
  abbrev pub ◌>>=◌ : {A B : Type 0} → Result E A → (A → Result E B) → Result E B
  raise exception >>= next = raise exception
  ok value >>= next = next value

  abbrev pub ◌>>◌ : {B : Type 0} → Result E (Unit {0}) → Result E B → Result E B
  ok tt >> after = after
  raise exception >> after = raise exception

  -- A successful chain of calls, taken apart.
  pub bind-eq-ok :
      {A B : Type 0} (first : Result E A) (next : A → Result E B) {result : B}
      → (first >>= next) ≡ ok result
      → (value : A) × (first ≡ ok value) × (next value ≡ ok result)
  bind-eq-ok (raise exception) next h = cc
  bind-eq-ok (ok value) next h = (value, refl, h)

-- an exception of one kind as one of another
abbrev pub map_error : {E F A : Type 0} → (E → F) → Result E A → Result F A
map_error f (raise exception) = raise (f exception)
map_error f (ok value) = ok value
