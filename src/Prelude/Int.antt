-- ===== src/Prelude/Int.antt =====
-- `i64` counts: a whole number with its sign, and a timestamp moved by such a count of units.
use Prim.Native.Nat.{ℕ, suc, ◌+◌, ◌-◌, ◌*◌}

-- `negsuc n` is -(n + 1).
pub data ℤ : Type 0 where
  pos : ℕ → ℤ
  negsuc : ℕ → ℤ

-- `t + i * unit`, stopping at the first timestamp.
abbrev pub later : ℕ → ℕ → ℤ → ℕ
later t unit (pos n) = t + n * unit
later t unit (negsuc n) = t - suc n * unit

-- `t - i * unit`, stopping at the first timestamp.
abbrev pub earlier : ℕ → ℕ → ℤ → ℕ
earlier t unit (pos n) = t - n * unit
earlier t unit (negsuc n) = t + suc n * unit
