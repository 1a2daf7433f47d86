-- ===== src/Base/Integers.antt =====
-- The type int of Go where a number may be negative, as that of replicas of a cluster.
use oneinfra.Base.{ℕ, Bool, false, eqb}

pub data ℤ : Type 0 where
  pos : ℕ → ℤ
  negsuc : ℕ → ℤ

-- Whether a number is the length of a list.
abbrev pub is_count : ℤ → ℕ → Bool
is_count (pos n) m = eqb n m
is_count (negsuc n) m = false
