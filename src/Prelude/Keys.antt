-- ===== src/Prelude/Keys.antt =====
-- Python's `==` on the keys that the program compares: texts, numbers and pairs of such.
use Prim.Native.Nat.{ℕ}
use Prim.Native.String.{String}
use mathlib.Core.Path.{◌≡◌}
use mathlib.Core.Logic.{◌↔◌}
use mathlib.Core.Bool.{Bool, true, ◌&&◌}
use native.Mathlib.Omega.{arith}
use text.Mathlib.Text.{◌==◌ as text_eq}
use text.Mathlib.TextEquality.{eq_iff}
use distributed_transaction.Prelude.Tests.{◌==◌ as number_eq, ==_iff}

-- keys that can be compared
pub record Eq (K : Type 0) : Type 0 where
  pub same : K → K → Bool
  pub same_iff : (j k : K) → (same j k ≡ true) ↔ (j ≡ k)

instance abbrev pub string_eq : Eq String
string_eq = record { same_iff = eq_iff; same = text_eq }

instance abbrev pub nat_eq : Eq ℕ
nat_eq = record { same_iff = ==_iff; same = number_eq }

module _ {J K : Type 0} ⦃ej : Eq J⦄ ⦃ek : Eq K⦄ where
  abbrev pub same_pair : J × K → J × K → Bool
  same_pair p q = ej.same p.0 q.0 && ek.same p.1 q.1

  pub same_pair_iff : (p q : J × K) → (same_pair p q ≡ true) ↔ (p ≡ q)
  same_pair_iff p q = ground (arith, ej.same_iff p.0 q.0, ek.same_iff p.1 q.1)

  instance abbrev pub pair_eq : Eq (J × K)
  pair_eq = record { same_iff = same_pair_iff; same = same_pair }

infix 50 ◌==◌
abbrev pub ◌==◌ : {K : Type 0} ⦃keys : Eq K⦄ → K → K → Bool
◌==◌ ⦃keys⦄ j k = keys.same j k
