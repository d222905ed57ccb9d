-- ===== src/Raft/Leaders/Clock.antt =====
-- A clock that advances from turn to turn advances by at least the turns between two readings.
use distributed_transaction.Prelude.{ℕ, zero, suc, ◌+◌, ◌-◌, ◌≤◌, ◌<◌, ◌≡◌, arith}

clock_mono :
    (clock : ℕ → ℕ) → ((j : ℕ) → clock j < clock (suc j)) → (k d : ℕ) → clock k + d ≤ clock (k + d)
clock_mono clock grows k zero = rw (plus_zero k) (omega arith)
  where
    plus_zero : (n : ℕ) → n + 0 ≡ n
    plus_zero n = omega arith
clock_mono clock grows k (suc d) =
    rw (plus_suc k d) (omega (arith, clock_mono clock grows k d, grows (k + d)))
  where
    plus_suc : (n m : ℕ) → n + suc m ≡ suc (n + m)
    plus_suc n m = omega arith

pub clock_later :
    (clock : ℕ → ℕ)
    → ((j : ℕ) → clock j < clock (suc j))
    → (k j : ℕ) → k ≤ j
    → clock k + (j - k) ≤ clock j
clock_later clock grows k j h = rw (whole k j h) at (clock_mono clock grows k (j - k))
  where
    whole : (k j : ℕ) → k ≤ j → k + (j - k) ≡ j
    whole k j h = omega arith
