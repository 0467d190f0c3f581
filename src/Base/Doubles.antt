-- ===== src/Base/Doubles.antt =====
-- Doubles of the machine, by their bit patterns: the comparisons and conversions that the program
-- uses, and what IEEE 754 says of them.
use Prim.Native.Nat.{ℕ}
use mathlib.Core.Path.{◌≡◌}
use mathlib.Core.Bool.{Bool, true}
use mathlib.Core.Logic.{◌⊎◌}
use mathlib.Core.Option.{Option, some}
use obs_dsk_multistream.Base.Int.{ℤ, pos, negsuc, ◌≤ℤ◌, ltb_ℤ}

-- The values of a 32-bit `int`.
abbrev pub IsInt : ℤ → Type 0
IsInt n = (◌≤ℤ◌ (negsuc 2147483647) n) × (◌≤ℤ◌ n (pos 2147483647))

pub record Doubles : Type 0 where
  pub from_int : ℤ → ℕ
  -- the `int` of the same value, as QJsonValue::toInt finds it
  pub to_int : ℕ → Option ℤ
  -- std::floor(d) == d
  pub is_integer : ℕ → Bool
  pub is_finite : ℕ → Bool
  -- d < e, and the d == e of qreal
  pub less : ℕ → ℕ → Bool
  pub same : ℕ → ℕ → Bool
  pub to_int-from_int : (n : ℤ) → IsInt n → to_int (from_int n) ≡ some n
  pub is_integer-from_int : (n : ℤ) → IsInt n → is_integer (from_int n) ≡ true
  pub is_finite-from_int : (n : ℤ) → IsInt n → is_finite (from_int n) ≡ true
  pub less-from_int : (m n : ℤ) → IsInt m → IsInt n → less (from_int m) (from_int n) ≡ ltb_ℤ m n
  pub less_connected :
      (d e f : ℕ) → less d f ≡ true → is_finite e ≡ true → (less d e ≡ true) ⊎ (less e f ≡ true)
