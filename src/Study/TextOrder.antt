-- ===== src/Study/TextOrder.antt =====
-- The order of texts and of planned runs that the sorts use is a strict total order.
use mathlib.Core.Path.{subst}
use text.Mathlib.TextEquality.{Char-path}
use browserbench.Prelude.{
  ℕ, String, ◌≡◌, refl, ap, true, false, List, [], ◌∷◌, arith, str_eq, eq_iff,
}
use browserbench.Claim.{codes}
use browserbench.Study.Texts.{codes_lt}
use browserbench.Study.Matrix.{run_lt, PlannedRun}

pub codes_lt-asym : (a b : List ℕ) → codes_lt a b ≡ true → codes_lt b a ≡ false
unfolding codes_lt
codes_lt-asym [] [] h = cc
codes_lt-asym [] (d ∷ ds) h = refl
codes_lt-asym (c ∷ cs) [] h = cc
codes_lt-asym (c ∷ cs) (d ∷ ds) h = ground (arith, codes_lt-asym cs ds)

pub codes_lt_trans :
    (a b c : List ℕ) → codes_lt b a ≡ false → codes_lt c b ≡ false → codes_lt c a ≡ false
unfolding codes_lt
codes_lt_trans [] b c h k = refl
codes_lt_trans (x ∷ a) [] c h k = cc
codes_lt_trans (x ∷ a) (y ∷ b) [] h k = cc
codes_lt_trans (x ∷ a) (y ∷ b) (z ∷ c) h k = ground (arith, codes_lt_trans a b c)

pub codes_lt-antisym : (a b : List ℕ) → codes_lt a b ≡ false → codes_lt b a ≡ false → a ≡ b
unfolding codes_lt
codes_lt-antisym [] [] h k = refl
codes_lt-antisym [] (d ∷ ds) h k = cc
codes_lt-antisym (c ∷ cs) [] h k = cc
codes_lt-antisym (c ∷ cs) (d ∷ ds) h k = ground (arith, codes_lt-antisym cs ds)

tail_eq : {c d : ℕ} {cs ds : List ℕ} → c ∷ cs ≡ d ∷ ds → (c ≡ d) × (cs ≡ ds)
tail_eq h = (cc, cc)

pub codes_inj : (s t : String) → codes s ≡ codes t → s ≡ t
codes_inj String.[] String.[] h = refl
codes_inj String.[] (String.◌∷◌ d t) h = cc
codes_inj (String.◌∷◌ c s) String.[] h = cc
codes_inj (String.◌∷◌ c s) (String.◌∷◌ d t) h =
    let (e, e') = tail_eq h in
    subst (λ x. String.◌∷◌ c s ≡ String.◌∷◌ x t) (Char-path c d e)
      (ap (String.◌∷◌ c) (codes_inj s t e'))

str_eq-false-codes_lt :
    (s t : String)
    → codes_lt (codes s) (codes t) ≡ false
    → codes_lt (codes t) (codes s) ≡ false
    → str_eq s t ≡ true
str_eq-false-codes_lt s t h k =
    (eq_iff s t).1 (codes_inj s t (codes_lt-antisym (codes s) (codes t) h k))

pub run_lt-asym : (a b : PlannedRun) → run_lt a b ≡ true → run_lt b a ≡ false
unfolding run_lt
run_lt-asym a b h = ground (
  arith,
  codes_lt-asym (codes a.run_id) (codes b.run_id),
  codes_lt-asym (codes a.random_order_sha256) (codes b.random_order_sha256),
  eq_iff a.random_order_sha256 b.random_order_sha256,
  eq_iff b.random_order_sha256 a.random_order_sha256,
)

module _ (a b c : PlannedRun) where
  pub run_lt_trans : run_lt b a ≡ false → run_lt c b ≡ false → run_lt c a ≡ false
  unfolding run_lt
  run_lt_trans h k = ground (
    arith,
    codes_lt_trans (codes a.run_id) (codes b.run_id) (codes c.run_id),
    codes_lt_trans (codes a.random_order_sha256) (codes b.random_order_sha256)
        (codes c.random_order_sha256),
    str_eq-false-codes_lt b.random_order_sha256 a.random_order_sha256,
    eq_iff b.random_order_sha256 a.random_order_sha256,
    eq_iff c.random_order_sha256 b.random_order_sha256,
    eq_iff c.random_order_sha256 a.random_order_sha256,
  )
