-- ===== src/Json/Values.antt =====
-- Values, the Python operations that the oracle applies to them, and the exceptions these raise.
use browserbench.Prelude.{
  ℕ, suc, ◌-◌, ◌*◌, ◌^◌, String, ◌≡◌, refl, ◌⊎◌, inl, inr, Bool, true, false, not, ◌&&◌, Option,
  none, some, List, [], ◌∷◌, str_eq, ◌==◌, if◌then◌else◌, any, all,
}

-- `negsuc n` is -(n + 1).
pub data ℤ : Type 0 where
  pos : ℕ → ℤ
  negsuc : ℕ → ℤ

pub data Scalar : Type 0 where
  null : Scalar
  bool : Bool → Scalar
  int : ℤ → Scalar
  real : ℤ → Scalar
  str : String → Scalar

mutual
  pub data Value : Type 0 where
    scalar : Scalar → Value
    obj : Fields → Value
    arr : Items → Value

  pub data Fields : Type 0 where
    field : String → Value → Fields → Fields
    end : Fields

  pub data Items : Type 0 where
    cons : Value → Items → Items
    nil : Items

pub data PyError : Type 0 where
  attribute_error type_error value_error key_error runtime_error overflow_error : PyError
  plan_error receipt_error execution_error file_exists_error file_not_found_error : PyError

pub data Py {ℓ} (A : Type ℓ) : Type ℓ where
  ok : A → Py A
  raise : PyError → Py A

infixl 5 ◌>>=◌
abbrev pub ◌>>=◌ {ℓ κ} : {A : Type ℓ} {B : Type κ} → Py A → (A → Py B) → Py B
ok a >>= f = f a
raise e >>= f = raise e

pub eq_of_ok {ℓ} : {A : Type ℓ} {a b : A} → ok a ≡ ok b → a ≡ b
eq_of_ok h = cc

-- if not b: raise e
abbrev pub require : Bool → PyError → Py {0} Unit
require true e = ok tt
require false e = raise e

-- What a computation that returns has returned on its way.
pub >>=-eq-ok {ℓ κ} :
    {A : Type ℓ} {B : Type κ} (first : Py A) (next : A → Py B) {out : B}
    → first >>= next ≡ ok out
    → (mid : A) × (first ≡ ok mid) × (next mid ≡ ok out)
>>=-eq-ok (ok mid) next h = (mid, refl, h)
>>=-eq-ok (raise e) next h = cc

-- The doubles between 0 and 1, counted.
unfoldable pub unit : ℕ
unit = 2 ^ 1074

unfoldable pub ℤ_eq : ℤ → ℤ → Bool
ℤ_eq (pos m) (pos n) = m == n
ℤ_eq (negsuc m) (negsuc n) = m == n
ℤ_eq _ _ = false

-- An integer as a float.
unfoldable pub to_real : ℤ → ℤ
to_real (pos n) = pos (n * unit)
to_real (negsuc n) = negsuc (suc n * unit - 1)

unfoldable pub bool_int : Bool → ℤ
bool_int true = pos 1
bool_int false = pos 0

-- a == b, where `True == 1` and `1 == 1.0`.
unfoldable pub scalar_eq : Scalar → Scalar → Bool
unfolding ℤ_eq bool_int
scalar_eq null null = true
scalar_eq (str s) (str t) = str_eq s t
scalar_eq (bool a) (bool b) = ℤ_eq (bool_int a) (bool_int b)
scalar_eq (bool a) (int n) = ℤ_eq (bool_int a) n
scalar_eq (bool a) (real x) = ℤ_eq (to_real (bool_int a)) x
scalar_eq (int m) (bool b) = ℤ_eq m (bool_int b)
scalar_eq (int m) (int n) = ℤ_eq m n
scalar_eq (int m) (real x) = ℤ_eq (to_real m) x
scalar_eq (real x) (bool b) = ℤ_eq x (to_real (bool_int b))
scalar_eq (real x) (int n) = ℤ_eq x (to_real n)
scalar_eq (real x) (real y) = ℤ_eq x y
scalar_eq _ _ = false

-- A column of a row is never a list or a dict.
unfoldable pub cell_eq : Scalar → Value → Bool
unfolding scalar_eq
cell_eq a (scalar b) = scalar_eq a b
cell_eq a _ = false

unfoldable pub is_str : Value → String → Bool
is_str (scalar (str t)) s = str_eq t s
is_str _ s = false

unfoldable pub lookup : String → Fields → Option Value
lookup k end = none
lookup k (field j v rest) = if str_eq j k then some v else lookup k rest

abbrev pub or_null : Option Value → Value
or_null none = scalar null
or_null (some v) = v

-- v.get(k)
unfoldable pub get : Value → String → Py Value
unfolding lookup
get (obj fs) k = ok (or_null (lookup k fs))
get _ k = raise attribute_error

-- bool(v)
unfoldable pub truthy : Value → Bool
truthy (scalar null) = false
truthy (scalar (bool b)) = b
truthy (scalar (int n)) = not (ℤ_eq n (pos 0))
truthy (scalar (real x)) = not (ℤ_eq x (pos 0))
truthy (scalar (str s)) = not (str_eq s "")
truthy (arr nil) = false
truthy (arr _) = true
truthy (obj end) = false
truthy (obj _) = true

-- v or d
unfoldable pub or_else : Value → Value → Value
unfolding truthy
or_else v d = if truthy v then v else d

abbrev pub empty_dict : Value
empty_dict = obj end

abbrev pub empty_list : Value
empty_list = arr nil

abbrev pub is_null : Value → Bool
is_null (scalar null) = true
is_null _ = false

abbrev pub is_list : Value → Bool
is_list (arr _) = true
is_list _ = false

abbrev pub is_dict : Value → Bool
is_dict (obj _) = true
is_dict _ = false

abbrev pub is_bool : Value → Bool
is_bool (scalar (bool _)) = true
is_bool _ = false

abbrev pub is_text : Value → Bool
is_text (scalar (str _)) = true
is_text _ = false

-- v is True
abbrev pub is_true : Value → Bool
is_true (scalar (bool b)) = b
is_true _ = false

-- The integer that is no Boolean, `isinstance(v, int) and not isinstance(v, bool)`.
abbrev pub as_int : Value → Option ℤ
as_int (scalar (int n)) = some n
as_int _ = none

abbrev pub items_list : Items → List Value
items_list nil = []
items_list (cons v vs) = v ∷ items_list vs

abbrev pub keys_list : Fields → List Value
keys_list end = []
keys_list (field k v fs) = scalar (str k) ∷ keys_list fs

abbrev pub chars_list : String → List Value
chars_list String.[] = []
chars_list (String.◌∷◌ c s) = scalar (str (String.◌∷◌ c String.[])) ∷ chars_list s

-- The values that `for x in v` visits.
unfoldable pub iterate : Value → Py (List Value)
iterate (arr vs) = ok (items_list vs)
iterate (obj fs) = ok (keys_list fs)
iterate (scalar (str s)) = ok (chars_list s)
iterate _ = raise type_error

-- The elements that `set` takes: a list or a dict is not hashable.
unfoldable pub hashed : List Value → Py (List Scalar)
hashed [] = ok []
hashed (scalar a ∷ vs) = hashed vs >>= λ rest. ok (a ∷ rest)
hashed (_ ∷ vs) = raise type_error

-- set(v)
unfoldable pub to_set : Value → Py (List Scalar)
unfolding iterate hashed
to_set v = iterate v >>= hashed

-- a in s
unfoldable pub member : Scalar → List Scalar → Bool
member a s = any (λ b. scalar_eq a b) s

-- s == t on sets
unfoldable pub same_set : List Scalar → List Scalar → Bool
unfolding member
same_set s t = all (λ a. member a t) s && all (λ b. member b s) t

pub Py-cases {ℓ} :
    {A : Type ℓ} (x : Py A) → ((a : A) × (x ≡ ok a)) ⊎ ((e : PyError) × (x ≡ raise e))
Py-cases (ok a) = inl (a, refl)
Py-cases (raise e) = inr (e, refl)
