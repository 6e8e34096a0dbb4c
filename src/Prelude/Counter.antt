-- ===== src/Prelude/Counter.antt =====
-- A C `int` that counts up and down: a natural number, or below 0.
use Prim.Native.Nat.{ℕ, zero, suc, ◌+◌}
use io_scheduling.Prelude.Outcome.{Run, ok, stop, fault}

-- `negsuc n` is -(n + 1).
pub data ℤ : Type 0 where
  pos : ℕ → ℤ
  negsuc : ℕ → ℤ

abbrev pub increment : ℤ → ℤ
increment (pos n) = pos (n + 1)
increment (negsuc zero) = pos 0
increment (negsuc (suc n)) = negsuc n

abbrev pub decrement : ℤ → ℤ
decrement (pos zero) = negsuc 0
decrement (pos (suc n)) = pos n
decrement (negsuc n) = negsuc (suc n)

-- A counter as an index of an array: below 0 it is outside every array.
abbrev pub index : ℤ → Run ℕ
index (pos n) = ok n
index (negsuc n) = stop fault
