-- ===== src/Prelude/Sorting.antt =====
-- `sorted(xs, key=...)` as repeated insertion, which keeps the order of equal keys, and what it
-- gives: an ordered rearrangement.
use Prim.Native.Nat.{suc}
use mathlib.Core.Path.{◌≡◌, refl}
use mathlib.Core.Logic.{inl, inr}
use mathlib.Core.Bool.{Bool, true, false}
use mathlib.Core.List.{List, [], ◌∷◌, Perm}
use mathlib.Core.List.Perm
use native.Mathlib.Omega.{arith}
use browserbench.Prelude.Tests.{if◌then◌else◌, Bool-cases}
use browserbench.Prelude.Lists.{length, All, All-imp, AllPairs}

module _ {ℓ} {A : Type ℓ} (lt : A → A → Bool) where
  unfoldable pub insert_sorted : A → List A → List A
  insert_sorted x [] = x ∷ []
  insert_sorted x (y ∷ ys) =
      let later = y ∷ insert_sorted x ys in if lt y x then later else x ∷ y ∷ ys

  unfoldable pub sort : List A → List A
  unfolding insert_sorted
  sort [] = []
  sort (x ∷ xs) = insert_sorted x (sort xs)

  -- No later element comes before an earlier one.
  abbrev pub IsOrdered : List A → Type ℓ
  IsOrdered [] = Unit
  IsOrdered (x ∷ xs) = All {ℓ, 0} (λ y. lt y x ≡ false) xs × IsOrdered xs

  pub insert_sorted-All {κ} :
      (P : A → Type κ) (x : A) (ys : List A) → P x → All P ys → All P (insert_sorted x ys)
  unfolding insert_sorted
  insert_sorted-All P x [] p ps = (p, tt)
  insert_sorted-All P x (y ∷ ys) p ps = elim (Bool-cases (lt y x)) [
    | inl e ↦ rw e (ps.0, insert_sorted-All P x ys p ps.1)
    | inr e ↦ rw e (p, ps)
  ]

  pub sort-All {κ} : (P : A → Type κ) (xs : List A) → All P xs → All P (sort xs)
  unfolding sort
  sort-All P [] ps = tt
  sort-All P (x ∷ xs) ps = insert_sorted-All P x (sort xs) ps.0 (sort-All P xs ps.1)

  module _ (asym : (x y : A) → lt x y ≡ true → lt y x ≡ false)
      (trans : (x y z : A) → lt y x ≡ false → lt z y ≡ false → lt z x ≡ false) where
    insert_sorted-IsOrdered : (x : A) (ys : List A) → IsOrdered ys → IsOrdered (insert_sorted x ys)
    unfolding insert_sorted
    insert_sorted-IsOrdered x [] h = (tt, tt)
    insert_sorted-IsOrdered x (y ∷ ys) (below, h) = elim (Bool-cases (lt y x)) [
      | inl e ↦ rw e (
        insert_sorted-All (λ z. lt z y ≡ false) x ys (asym y x e) below,
        insert_sorted-IsOrdered x ys h,
      )
      | inr e ↦ rw e ((e, All-imp _ _ ys (λ z p. trans x y z e p) below), (below, h))
    ]

    -- `sorted` gives an ordered list.
    pub sort-IsOrdered : (xs : List A) → IsOrdered (sort xs)
    unfolding sort
    sort-IsOrdered [] = tt
    sort-IsOrdered (x ∷ xs) = insert_sorted-IsOrdered x (sort xs) (sort-IsOrdered xs)

  insert_sorted-length : (x : A) (ys : List A) → length (insert_sorted x ys) ≡ suc (length ys)
  unfolding insert_sorted
  insert_sorted-length x [] = refl
  insert_sorted-length x (y ∷ ys) = ground (arith, insert_sorted-length x ys)

  pub sort-length : (xs : List A) → length (sort xs) ≡ length xs
  unfolding sort
  sort-length [] = refl
  sort-length (x ∷ xs) = omega (arith, insert_sorted-length x (sort xs), sort-length xs)

  -- A symmetric relation between any two elements outlives the sort.
  insert_sorted-AllPairs {κ} :
      (R : A → A → Type κ) (x : A) (ys : List A)
      → ((a b : A) → R a b → R b a)
      → All (R x) ys
      → AllPairs R ys
      → AllPairs R (insert_sorted x ys)
  unfolding insert_sorted
  insert_sorted-AllPairs R x [] f p ps = (tt, tt)
  insert_sorted-AllPairs R x (y ∷ ys) f p ps = elim (Bool-cases (lt y x)) [
    | inl e ↦
        rw e
          (insert_sorted-All (R y) x ys (f x y p.0) ps.0, insert_sorted-AllPairs R x ys f p.1 ps.1)
    | inr e ↦ rw e (p, ps)
  ]

  pub sort-AllPairs {κ} :
      (R : A → A → Type κ) (xs : List A)
      → ((a b : A) → R a b → R b a)
      → AllPairs R xs
      → AllPairs R (sort xs)
  unfolding sort
  sort-AllPairs R [] f ps = tt
  sort-AllPairs R (x ∷ xs) f ps =
      insert_sorted-AllPairs R x (sort xs) f (sort-All (R x) xs ps.0) (sort-AllPairs R xs f ps.1)

  insert_sorted-perm : (x : A) (ys : List A) → Perm (insert_sorted x ys) (x ∷ ys)
  unfolding insert_sorted
  insert_sorted-perm x [] = Perm.rfl
  insert_sorted-perm x (y ∷ ys) = elim (Bool-cases (lt y x)) [
    | inl e ↦ rw e (Perm.trans (Perm.cons y (insert_sorted-perm x ys)) (Perm.swap x y ys))
    | inr e ↦ rw e Perm.rfl
  ]

  -- `sorted` neither adds, drops nor changes an element.
  pub sort-perm : (xs : List A) → Perm (sort xs) xs
  unfolding sort
  sort-perm [] = Perm.rfl
  sort-perm (x ∷ xs) = Perm.trans (insert_sorted-perm x (sort xs)) (Perm.cons x (sort-perm xs))
