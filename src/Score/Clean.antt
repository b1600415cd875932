-- ===== src/Score/Clean.antt =====
-- Reports with no failure and no contract error, and what each check of score.py must have found
-- where its report is one.
use browserbench.Prelude.{◌≡◌, refl, ◌≢◌, Bool, true, false, not, List, [], ◌∷◌, ◌++◌, arith}
use browserbench.Score.Types.{
  fail_if, violate_if, contract_if, breach_if, Report, ContractError, Failure, Violation,
}

pub record IsClean (r : Report) : Type 0 where
  pub no_failures : r.failures ≡ []
  pub no_errors : r.contract_errors ≡ []

snoc-ne-nil {ℓ} : {A : Type ℓ} (xs : List A) (x : A) → xs ++ x ∷ [] ≢ []
snoc-ne-nil [] x h = cc
snoc-ne-nil (y ∷ ys) x h = cc

pub not-false : (b : Bool) → not b ≡ false → b ≡ true
not-false b h = ground arith

pub fail_if-IsClean :
    (b : Bool) (f : Failure) (r : Report) → IsClean (fail_if b f r) → (b ≡ false) × IsClean r
unfolding fail_if
fail_if-IsClean true f r h = absurd (snoc-ne-nil r.failures f h.no_failures)
fail_if-IsClean false f r h = (refl, h)

pub contract_if-IsClean :
    (b : Bool) (e : ContractError) (r : Report)
    → IsClean (contract_if b e r)
    → (b ≡ false) × IsClean r
unfolding contract_if
contract_if-IsClean true e r h = absurd (snoc-ne-nil r.contract_errors e h.no_errors)
contract_if-IsClean false e r h = (refl, h)

pub violate_if-IsClean :
    (b : Bool) (v : Violation) (r : Report) → IsClean (violate_if b v r) → IsClean r
unfolding violate_if
violate_if-IsClean true v r h = record { no_failures = h.no_failures; no_errors = h.no_errors }
violate_if-IsClean false v r h = h

pub breach_if-IsClean :
    (b : Bool) (f : Failure) (v : Violation) (r : Report)
    → IsClean (breach_if b f v r)
    → (b ≡ false) × IsClean r
breach_if-IsClean b f v r h = fail_if-IsClean b f r (violate_if-IsClean b v (fail_if b f r) h)
