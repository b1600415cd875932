-- ===== src/Json/Reflexive.antt =====
-- When a JSON value equals itself by `==`.
use browserbench.Prelude.{◌≡◌, refl, true, eq_refl, ==_iff}
use browserbench.Json.Values.{
  ℤ_eq, bool_int, scalar_eq, ℤ, pos, negsuc, Scalar, null, bool, int, real, str, Value,
}
use browserbench.Json.Numbers.{value_eq}

pub ℤ_eq_refl : (z : ℤ) → ℤ_eq z z ≡ true
unfolding ℤ_eq
ℤ_eq_refl (pos n) = (==_iff n n).1 refl
ℤ_eq_refl (negsuc n) = (==_iff n n).1 refl

pub scalar_eq_refl : (s : Scalar) → scalar_eq s s ≡ true
unfolding scalar_eq
scalar_eq_refl null = refl
scalar_eq_refl (bool b) = ℤ_eq_refl (bool_int b)
scalar_eq_refl (int n) = ℤ_eq_refl n
scalar_eq_refl (real x) = ℤ_eq_refl x
scalar_eq_refl (str s) = eq_refl s

-- v == v
abbrev pub IsSelfEqual : Value → Type 0
IsSelfEqual v = value_eq v v ≡ true
