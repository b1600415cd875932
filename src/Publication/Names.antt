-- ===== src/Publication/Names.antt =====
-- Folders without some of their names.
use browserbench.Prelude.{
  String, ◌≡◌, refl, sym, ap, ◌∙◌, inl, inr, Bool, true, false, not, ◌||◌, List, [], ◌∷◌, ◌++◌,
  arith, str_eq, eq_iff, eq_refl, Bool-cases, or_comm, filter,
}
use browserbench.Publication.Commit.{contains, remove, unlink_each, reversed}

-- The names of a folder that are not among `ns`.
unfoldable pub without : List String → List String → List String
unfolding contains
without ns folder = filter (λ m. not (contains m ns)) folder

without-remove :
    (n : String) (ns folder : List String) → without ns (remove n folder) ≡ without (n ∷ ns) folder
unfolding without remove contains
without-remove n ns [] = refl
without-remove n ns (m ∷ folder) = ground (arith, without-remove n ns folder)

without-nil : (folder : List String) → without [] folder ≡ folder
unfolding without contains
without-nil [] = refl
without-nil (m ∷ folder) = ap (◌∷◌ m) (without-nil folder)

-- `without` depends on which names are listed, not on their order.
pub without-same :
    (ns ms folder : List String)
    → ((m : String) → contains m ns ≡ contains m ms)
    → without ns folder ≡ without ms folder
unfolding without
without-same ns ms [] f = refl
without-same ns ms (m ∷ folder) f = rw (f m, without-same ns ms folder f) refl

pub unlink_each-without : (ns folder : List String) → unlink_each ns folder ≡ without ns folder
unfolding unlink_each
unlink_each-without [] folder = sym (without-nil folder)
unlink_each-without (n ∷ ns) folder =
    unlink_each-without ns (remove n folder) ∙ without-remove n ns folder

pub without-without :
    (ns ms folder : List String) → without ns (without ms folder) ≡ without (ms ++ ns) folder
without-without ns [] folder = ap (without ns) (without-nil folder)
without-without ns (m ∷ ms) folder =
    ap (without ns) (sym (without-remove m ms folder))
    ∙ without-without ns ms (remove m folder)
    ∙ without-remove m (ms ++ ns) folder

pub contains-append :
    (m : String) (ns ms : List String) → contains m (ns ++ ms) ≡ (contains m ns || contains m ms)
unfolding contains
contains-append m [] ms = refl
contains-append m (n ∷ ns) ms = ground (arith, contains-append m ns ms)

contains-cons :
    (m n : String) (ns : List String) → contains m (n ∷ ns) ≡ (str_eq m n || contains m ns)
unfolding contains
contains-cons m n ns = refl

contains-none : (m : String) → contains m [] ≡ false
unfolding contains
contains-none m = refl

or_false : (a b : Bool) → ((a || false) || b) ≡ (a || b)
or_false true b = refl
or_false false b = refl

pub contains-reversed : (m : String) (ns : List String) → contains m (reversed ns) ≡ contains m ns
unfolding reversed
contains-reversed m [] = refl
contains-reversed m (n ∷ ns) =
    contains-append m (reversed ns) (n ∷ [])
    ∙ rw (contains-reversed m ns, contains-cons m n [], contains-cons m n ns, contains-none m)
        (or_comm (contains m ns) (str_eq m n || false) ∙ or_false (str_eq m n) (contains m ns))

-- Names that are removed may be removed earlier.
pub without-remove_listed :
    (n : String) (ns folder : List String)
    → contains n ns ≡ true
    → without ns (remove n folder) ≡ without ns folder
without-remove_listed n ns folder h =
    without-remove n ns folder ∙ without-same (n ∷ ns) ns folder (λ m. unfold contains in listed m)
  where
    listed : (m : String) → (str_eq m n || contains m ns) ≡ contains m ns
    listed m = elim (Bool-cases (str_eq m n)) [
      | inl e ↦ rw (e, (eq_iff m n).0 e, h) refl
      | inr e ↦ rw e refl
    ]

-- A name that a folder lacks can be added and listed.
pub without-add :
    (n : String) (ns folder : List String)
    → contains n folder ≡ false
    → without (ns ++ n ∷ []) (folder ++ n ∷ []) ≡ without ns folder
unfolding without
without-add n ns [] h =
    let listed : contains n (ns ++ n ∷ []) ≡ true =
      contains-append n ns (n ∷ []) ∙ unfold contains in ground (arith, eq_refl n) in
    rw listed refl
without-add n ns (m ∷ folder) h =
    let here : contains m (ns ++ n ∷ []) ≡ contains m ns =
      contains-append m ns (n ∷ []) ∙ unfold contains in ground (arith, eq_iff m n, eq_iff n m) in
    let later : contains n folder ≡ false = unfold contains in ground arith in
    rw (here, without-add n ns folder later) refl
