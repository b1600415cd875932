-- ===== src/Json/Numbers.antt =====
-- `float(v)`, `==` on whole JSON values, and the sets of their keys.
use browserbench.Prelude.{
  ℕ, zero, suc, ◌+◌, ◌-◌, ◌*◌, ◌/◌, ◌%◌, ◌^◌, String, Bool, true, false, ◌&&◌, Option, none, some,
  List, [], ◌∷◌, str_eq, ltb, ◌==◌, if◌then◌else◌, any, all,
}
use browserbench.Json.Values.{
  unit, scalar_eq, lookup, or_null, ℤ, pos, negsuc, int, real, Value, scalar, obj, arr, Fields,
  field, end, Items, cons, nil, overflow_error, Py, ok, raise,
}

-- What a float gives for an integer is exact below 2^53; above, the nearest multiple of the spacing
-- of doubles there, the even one of two, until it overflows.
unfoldable pub round_at : (spacing n : ℕ) → ℕ
round_at zero n = n
round_at (suc k) n =
    let q = n / (suc k) in
    let r = n % (suc k) in
    if ltb (2 * r) (suc k)
    then q * suc k
    else if ltb (suc k) (2 * r)
    then suc q * suc k
    else (q + q % 2) * suc k

-- The spacing of the doubles of the size of `n`, from a power of 2 that is at most that.
unfoldable pub spacing : (rounds step n : ℕ) → ℕ
spacing zero step n = step
spacing (suc r) step n =
    let wider = spacing r (2 * step) n in if ltb n (step * 2 ^ 53) then step else wider

unfoldable pub float_of : ℕ → Option ℕ
unfolding round_at spacing
float_of n =
    let x = round_at (spacing 1024 1 n) n in if ltb x (2 ^ 1024) then some (x * unit) else none

-- float(v) of a number; `none` is no number.
unfoldable pub as_float : Value → Py (Option ℤ)
unfolding float_of
as_float (scalar (real x)) = ok (some x)
as_float (scalar (int (pos n))) = elim (float_of n) [
  | none ↦ raise overflow_error
  | some x ↦ ok (some (pos x))
]
as_float (scalar (int (negsuc n))) = elim (float_of (suc n)) [
  | none ↦ raise overflow_error
  | some x ↦ ok (some (negsuc (x - 1)))
]
as_float _ = ok none

-- a == b on values that are no rows: dicts do not keep an order, and `True == 1`.
abbrev pub fields_count : Fields → ℕ
fields_count end = 0
fields_count (field k v fs) = suc (fields_count fs)

abbrev pub keys_of : Fields → List String
keys_of end = []
keys_of (field k v fs) = k ∷ keys_of fs

-- k in v
unfoldable pub has_field : String → Fields → Bool
has_field k fs = any (str_eq k) (keys_of fs)

-- v.get(k), of a dict
unfoldable pub item_of : String → Fields → Value
unfolding lookup
item_of k fs = or_null (lookup k fs)

unfoldable mutual
  pub value_eq : Value → Value → Bool
  value_eq (scalar a) (scalar b) = scalar_eq a b
  value_eq (obj fs) (obj gs) = (fields_count fs == fields_count gs) && fields_within fs gs
  value_eq (arr vs) (arr ws) = items_eq vs ws
  value_eq _ _ = false

  pub fields_within : Fields → Fields → Bool
  fields_within end gs = true
  fields_within (field k v fs) gs =
      has_field k gs && value_eq v (item_of k gs) && fields_within fs gs

  pub items_eq : Items → Items → Bool
  items_eq nil nil = true
  items_eq (cons v vs) (cons w ws) = value_eq v w && items_eq vs ws
  items_eq _ _ = false

-- set(v) == names, of a dict
unfoldable pub same_keys : List String → Fields → Bool
unfolding has_field
same_keys names fs = all (λ k. any (str_eq k) names) (keys_of fs) && all (λ k. has_field k fs) names
