-- ===== src/Study/Schedule.antt =====
-- `_runs` gives a balanced schedule: every cell of the matrix once, under distinct run ids, in the
-- order of the digests, numbered from 1.
use mathlib.Core.Path.{subst}
use mathlib.Core.List.{Perm, append-nil, append_assoc}
use browserbench.Prelude.{
  ℕ, zero, suc, ◌*◌, String, ◌≡◌, refl, sym, ap, ◌∙◌, true, false, not, ◌&&◌, List, [], ◌∷◌, ◌++◌,
  map, arith, str_eq, eq_iff, length, All, AllPairs, length-append, All-append, All-imp, sort,
  IsOrdered, sort-All, sort-IsOrdered, sort-length, sort-AllPairs, sort-perm,
}
use browserbench.Json.{eq_of_ok, require, >>=-eq-ok, Value, plan_error, ok}
use browserbench.Study.Texts.{is_run_id}
use browserbench.Study.Conditions.{Condition}
use browserbench.Study.Bindings.{TaskBinding}
use browserbench.Study.Matrix.{
  numbers, cells_of, task_cells, cells, run_lt, enumerate, is_planned, planned_run, plan_cells,
  runs, PlannedRun, Cell,
}
use browserbench.Study.Accepted.{require-eq}
use browserbench.Study.TextOrder.{run_lt-asym, run_lt_trans}

length-cells_of :
    (t : TaskBinding) (c : Condition) (ns : List ℕ) → length (cells_of t c ns) ≡ length ns
unfolding cells_of
length-cells_of t c [] = refl
length-cells_of t c (n ∷ ns) = ap suc (length-cells_of t c ns)

length-numbers : (first n : ℕ) → length (numbers first n) ≡ n
unfolding numbers
length-numbers first zero = refl
length-numbers first (suc n) = ap suc (length-numbers (suc first) n)

length-task_cells :
    (n : ℕ) (t : TaskBinding) (cs : List Condition) → length (task_cells n t cs) ≡ length cs * n
unfolding task_cells
length-task_cells n t [] = grind arith
length-task_cells n t (c ∷ cs) = grind (
  arith,
  length-append (cells_of t c (numbers 1 n)) (task_cells n t cs),
  length-cells_of t c (numbers 1 n),
  length-numbers 1 n,
  length-task_cells n t cs,
)

length-cells :
    (n : ℕ) (ts : List TaskBinding) (cs : List Condition)
    → length (cells n ts cs) ≡ length ts * (length cs * n)
unfolding cells
length-cells n [] cs = grind arith
length-cells n (t ∷ ts) cs = grind (
  arith,
  length-append (task_cells n t cs) (cells n ts cs),
  length-task_cells n t cs,
  length-cells n ts cs,
)

length-map {ℓ κ} :
    {A : Type ℓ} {B : Type κ} (f : A → B) (xs : List A) → length (map f xs) ≡ length xs
length-map f [] = refl
length-map f (x ∷ xs) = ap suc (length-map f xs)

abbrev pub DifferentIds : PlannedRun → PlannedRun → Type 0
DifferentIds a b = str_eq a.run_id b.run_id ≡ false

DifferentIds-sym : (a b : PlannedRun) → DifferentIds a b → DifferentIds b a
DifferentIds-sym a b h = ground (arith, eq_iff a.run_id b.run_id, eq_iff b.run_id a.run_id)

abbrev HasRunId : PlannedRun → Type 0
HasRunId r = is_run_id r.run_id ≡ true

-- The run as it was before `enumerate`.
abbrev pub unnumbered : PlannedRun → PlannedRun
unnumbered r = record r { ordinal = 0 }

All-snoc :
    (r : PlannedRun) (rs : List PlannedRun)
    → is_planned r.run_id rs ≡ false
    → All (λ a. DifferentIds a r) rs
unfolding is_planned
All-snoc r [] h = tt
All-snoc r (a ∷ rs) h = (ground (arith, DifferentIds-sym r a), All-snoc r rs (ground arith))

AllPairs-snoc :
    (R : PlannedRun → PlannedRun → Type 0) (rs : List PlannedRun) (r : PlannedRun)
    → AllPairs R rs
    → All (λ a. R a r) rs
    → AllPairs R (rs ++ r ∷ [])
AllPairs-snoc R [] r p q = (tt, tt)
AllPairs-snoc R (a ∷ rs) r p q =
    (All-append (R a) rs (r ∷ []) p.0 (q.0, tt), AllPairs-snoc R rs r p.1 q.1)

abbrev AreDistinct : List PlannedRun → Type 0
AreDistinct rs = All HasRunId rs × AllPairs DifferentIds rs

map-unnumbered :
    (n : ℕ) (rs : List PlannedRun) → map unnumbered (enumerate n rs) ≡ map unnumbered rs
unfolding enumerate
map-unnumbered n [] = refl
map-unnumbered n (r ∷ rs) = ap (◌∷◌ (unnumbered r)) (map-unnumbered (suc n) rs)

map-ordinal :
    (n : ℕ) (rs : List PlannedRun) → map (λ r. r.ordinal) (enumerate n rs) ≡ numbers n (length rs)
unfolding enumerate numbers
map-ordinal n [] = refl
map-ordinal n (r ∷ rs) = ap (◌∷◌ n) (map-ordinal (suc n) rs)

enumerate-All :
    (P : PlannedRun → Type 0) (n : ℕ) (rs : List PlannedRun)
    → ((k : ℕ) (r : PlannedRun) → P r → P (record r { ordinal = k }))
    → All P rs
    → All P (enumerate n rs)
unfolding enumerate
enumerate-All P n [] f p = tt
enumerate-All P n (r ∷ rs) f p = (f n r p.0, enumerate-All P (suc n) rs f p.1)

enumerate-AllPairs :
    (R : PlannedRun → PlannedRun → Type 0) (n : ℕ) (rs : List PlannedRun)
    → ((k l : ℕ) (r s : PlannedRun)
        → R r s
        → R (record r { ordinal = k }) (record s { ordinal = l }))
    → AllPairs R rs
    → AllPairs R (enumerate n rs)
unfolding enumerate
enumerate-AllPairs R n [] f p = tt
enumerate-AllPairs R n (r ∷ rs) f p = (
  enumerate-All (R (record r { ordinal = n })) (suc n) rs
      (λ l s. f n l (record r { ordinal = n }) s)
      (All-imp (R r) (R (record r { ordinal = n })) rs (λ s. f n s.ordinal r s) p.0),
  enumerate-AllPairs R (suc n) rs f p.1,
)

IsOrdered-AllPairs :
    (rs : List PlannedRun) → IsOrdered run_lt rs → AllPairs (λ a b. run_lt b a ≡ false) rs
IsOrdered-AllPairs [] h = tt
IsOrdered-AllPairs (r ∷ rs) h = (h.0, IsOrdered-AllPairs rs h.1)

abbrev IsUnnumbered : PlannedRun → Type 0
IsUnnumbered r = r.ordinal ≡ 0

map-unnumbered_same : (rs : List PlannedRun) → All IsUnnumbered rs → map unnumbered rs ≡ rs
map-unnumbered_same [] h = refl
map-unnumbered_same (r ∷ rs) h =
    let head : unnumbered r ≡ r = ap (λ n. record r { ordinal = n }) (sym h.0) in
    ap (λ x. x ∷ map unnumbered rs) head ∙ ap (◌∷◌ r) (map-unnumbered_same rs h.1)

module _ (sha256 : Value → String) (identity seed : String) where
  abbrev made : List Cell → List PlannedRun
  made cs = map (planned_run sha256 identity seed) cs

  made-IsUnnumbered : (cs : List Cell) → All IsUnnumbered (made cs)
  unfolding planned_run
  made-IsUnnumbered [] = tt
  made-IsUnnumbered (c ∷ cs) = (refl, made-IsUnnumbered cs)

  plan_cells-AreDistinct :
      (planned : List PlannedRun) (cs : List Cell) (out : List PlannedRun)
      → AreDistinct planned
      → plan_cells sha256 identity seed planned cs ≡ ok out
      → (out ≡ planned ++ made cs) × AreDistinct out
  unfolding plan_cells
  plan_cells-AreDistinct planned [] out d h =
      (sym (eq_of_ok h) ∙ sym (append-nil planned), subst AreDistinct (eq_of_ok h) d)
  plan_cells-AreDistinct planned (c ∷ cs) out d h =
      let r = planned_run sha256 identity seed c in
      let (u, e, h₁) =
        >>=-eq-ok (require (is_run_id r.run_id && not (is_planned r.run_id planned)) plan_error) _
          h in
      let fresh =
        require-eq (is_run_id r.run_id && not (is_planned r.run_id planned)) plan_error u e in
      let named : HasRunId r = ground arith in
      let new : is_planned r.run_id planned ≡ false = ground arith in
      let (same, d') =
        plan_cells-AreDistinct (planned ++ r ∷ []) cs out
          (
            All-append HasRunId planned (r ∷ []) d.0 (named, tt),
            AllPairs-snoc DifferentIds planned r d.1 (All-snoc r planned new),
          )
          h₁ in
      (same ∙ append_assoc planned (r ∷ []) (made cs), d')

  -- What the runs of a plan are.
  pub record IsSchedule (n : ℕ) (ts : List TaskBinding) (cs : List Condition) (rs : List PlannedRun)
      : Type 0 where
    pub balanced : Perm (map unnumbered rs) (made (cells n ts cs))
    pub count : length rs ≡ length ts * (length cs * n)
    pub named : All HasRunId rs
    pub distinct : AllPairs DifferentIds rs
    pub ordered : AllPairs (λ a b. run_lt b a ≡ false) rs
    pub numbered : map (λ r. r.ordinal) rs ≡ numbers 1 (length rs)

  length-enumerate : (k : ℕ) (rs : List PlannedRun) → length (enumerate k rs) ≡ length rs
  unfolding enumerate
  length-enumerate k [] = refl
  length-enumerate k (r ∷ rs) = ap suc (length-enumerate (suc k) rs)

  -- The sort and the numbering turn distinct runs of all cells into a schedule.
  enumerate-sort-IsSchedule :
      (n : ℕ) (ts : List TaskBinding) (cs : List Condition) (planned : List PlannedRun)
      → planned ≡ made (cells n ts cs)
      → AreDistinct planned
      → IsSchedule n ts cs (enumerate 1 (sort run_lt planned))
  enumerate-sort-IsSchedule n ts cs planned e d =
      let sorted = sort run_lt planned in
      let blank : map unnumbered sorted ≡ sorted = map-unnumbered_same sorted (
        sort-All run_lt IsUnnumbered planned
          (subst (All IsUnnumbered) (sym e) (made-IsUnnumbered (cells n ts cs)))) in
      record {
        balanced =
            subst (λ x. Perm x (made (cells n ts cs))) (sym (map-unnumbered 1 sorted ∙ blank))
              (subst (λ x. Perm sorted x) e (sort-perm run_lt planned));
        count =
            length-enumerate 1 sorted
            ∙ sort-length run_lt planned
            ∙ ap length e
            ∙ length-map (planned_run sha256 identity seed) (cells n ts cs)
            ∙ length-cells n ts cs;
        named = enumerate-All HasRunId 1 sorted (λ k r p. p) (sort-All run_lt HasRunId planned d.0);
        distinct =
            enumerate-AllPairs DifferentIds 1 sorted (λ k l r s p. p)
              (sort-AllPairs run_lt DifferentIds planned DifferentIds-sym d.1);
        ordered =
            enumerate-AllPairs (λ a b. run_lt b a ≡ false) 1 sorted
              (λ k l r s p. unfold run_lt in p)
              (IsOrdered-AllPairs sorted (sort-IsOrdered run_lt run_lt-asym run_lt_trans planned));
        numbered = map-ordinal 1 sorted ∙ ap (numbers 1) (sym (length-enumerate 1 sorted));
      }

  -- The runs of a plan are a schedule of its matrix.
  pub runs-IsSchedule :
      (n : ℕ) (ts : List TaskBinding) (cs : List Condition) (rs : List PlannedRun)
      → runs sha256 identity seed n ts cs ≡ ok rs
      → IsSchedule n ts cs rs
  unfolding runs
  runs-IsSchedule n ts cs rs h =
      let (planned, e, h₁) = >>=-eq-ok (plan_cells sha256 identity seed [] (cells n ts cs)) _ h in
      let (same, d) = plan_cells-AreDistinct [] (cells n ts cs) planned (tt, tt) e in
      subst (IsSchedule n ts cs) (eq_of_ok h₁) (enumerate-sort-IsSchedule n ts cs planned same d)
