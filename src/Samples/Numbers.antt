-- ===== src/Samples/Numbers.antt =====
-- Doubles that are the integers.
use Prim.Native.Nat.{◌/◌}
use obs_dsk_multistream.Base.{
  ℕ, ◌+◌, ◌*◌, ◌%◌, ◌≡◌, refl, ap, ◌⊎◌, inl, inr, true, some, ℤ, pos, negsuc, eqb, ltb_ℤ,
  if◌then◌else◌, arith, Bool-cases,
}
use obs_dsk_multistream.Base.Doubles.{Doubles}

-- The even patterns are the integers from 0 on, the odd ones those below 0.
abbrev encode : ℤ → ℕ
encode (pos n) = 2 * n
encode (negsuc n) = 2 * n + 1

abbrev decode : ℕ → ℤ
decode d = if eqb (d % 2) 0 then pos (d / 2) else negsuc (d / 2)

pub decode-encode : (n : ℤ) → decode (encode n) ≡ n
decode-encode (pos n) = ground (arith, two n)
  where
    two : (n : ℕ) → (2 * n) / 2 ≡ n
    two n = omega arith
decode-encode (negsuc n) = ground (arith, two n)
  where
    two : (n : ℕ) → (2 * n + 1) / 2 ≡ n
    two n = omega arith

pub ltb_ℤ_connected : (a b c : ℤ) → ltb_ℤ a c ≡ true → (ltb_ℤ a b ≡ true) ⊎ (ltb_ℤ b c ≡ true)
ltb_ℤ_connected a b c h = elim (Bool-cases (ltb_ℤ a b)) [
  | inl e ↦ inl e
  | inr e ↦ inr (ground arith)
]

pub ltb_ℤ-decode : (m n : ℤ) → ltb_ℤ (decode (encode m)) (decode (encode n)) ≡ ltb_ℤ m n
ltb_ℤ-decode m n = rw (decode-encode m, decode-encode n)

abbrev pub whole_doubles : Doubles
whole_doubles = record {
  from_int = encode;
  to_int = λ d. some (decode d);
  is_integer = λ d. true;
  is_finite = λ d. true;
  less = λ d e. ltb_ℤ (decode d) (decode e);
  same = eqb;
  to_int-from_int = λ n i. ap some (decode-encode n);
  is_integer-from_int = λ n i. refl;
  is_finite-from_int = λ n i. refl;
  less-from_int = λ m n i j. ltb_ℤ-decode m n;
  less_connected = λ d e f h k. ltb_ℤ_connected (decode d) (decode e) (decode f) h;
}
