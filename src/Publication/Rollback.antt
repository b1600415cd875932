-- ===== src/Publication/Rollback.antt =====
-- A publication that fails is taken back, up to one artifact, and one that returns is complete.
use mathlib.Core.Path.{subst}
use mathlib.Core.List.{append-nil, append_assoc}
use browserbench.Prelude.{
  ℕ, zero, suc, String, ◌≡◌, refl, sym, ap, ◌∙◌, ◌⊎◌, inl, inr, true, false, not, ◌||◌, Option,
  none, some, List, [], ◌∷◌, ◌++◌, arith, str_eq, eq_iff, eq_refl, if◌then◌else◌, Bool-cases,
  Option-cases, eq_of_some, or_comm, All, All-append, All-imp, filter-append,
}
use browserbench.Publication.Commit.{
  contains, remove, with_artifacts, perform, unlink_each, reversed, temporaries, targets, rollback,
  run_calls, Folders, Publication, Log, Call, check, Ended, published, failed,
}
use browserbench.Publication.Names.{
  without, without-same, unlink_each-without, without-without, contains-append, contains-reversed,
  without-remove_listed, without-add,
}

pub remove-absent :
    (n : String) (folder : List String) → contains n folder ≡ false → remove n folder ≡ folder
unfolding contains remove
remove-absent n [] h = refl
remove-absent n (m ∷ folder) h = ground (arith, remove-absent n folder, eq_iff m n, eq_iff n m)

pub remove-append : (n : String) (a b : List String) → remove n (a ++ b) ≡ remove n a ++ remove n b
unfolding remove
remove-append n a b = filter-append (λ m. not (str_eq m n)) a b

remove_self : (n : String) → remove n (n ∷ []) ≡ []
unfolding remove
remove_self n = ground (arith, eq_refl n)

pub remove-last :
    (n : String) (folder : List String)
    → contains n folder ≡ false
    → remove n (folder ++ n ∷ []) ≡ folder
remove-last n folder h =
    remove-append n folder (n ∷ [])
    ∙ rw (remove-absent n folder h, remove_self n) (append-nil folder)

pub contains-last :
    (n m : String) (folder : List String)
    → contains n (folder ++ m ∷ []) ≡ (contains n folder || str_eq n m)
unfolding contains
contains-last n m [] = ground arith
contains-last n m (k ∷ folder) = ground (arith, contains-last n m folder)

-- A name that outlives the removal of another.
contains-remove :
    (n m : String) (folder : List String)
    → str_eq n m ≡ false
    → contains n (remove m folder) ≡ contains n folder
unfolding contains remove
contains-remove n m [] h = refl
contains-remove n m (k ∷ folder) h =
    ground (arith, contains-remove n m folder h, eq_iff k m, eq_iff n k, eq_iff n m)

module _ (p : Publication) (old : Folders) where
  -- The folders as they were, but for at most one artifact under its target's name.
  pub record IsUndone (f : Folders) : Type 0 where
    pub same_root : f.root ≡ old.root
    pub artifacts_kept :
        (f.artifacts ≡ old.artifacts)
        ⊎ ((t : String) × (contains t (targets p) ≡ true) × (f.artifacts ≡ old.artifacts ++ t ∷ []))

  -- The receipt stands, and no temporary of it; every artifact is under its target's name.
  pub record IsPublished (f : Folders) : Type 0 where
    pub receipt_added : f.root ≡ old.root ++ p.receipt_target ∷ []
    pub all_targets : All (λ t. contains t f.artifacts ≡ true) (targets p)

  abbrev pub listed : Log → List String
  listed l = temporaries p ++ l.committed

  rollback-artifacts : (l : Log) → (rollback p l).artifacts ≡ without (listed l) l.folders.artifacts
  unfolding rollback
  rollback-artifacts l =
      unlink_each-without (temporaries p) (unlink_each (reversed l.committed) l.folders.artifacts)
      ∙ ap (without (temporaries p))
          (unlink_each-without (reversed l.committed) l.folders.artifacts)
      ∙ without-without (temporaries p) (reversed l.committed) l.folders.artifacts
      ∙ without-same (reversed l.committed ++ temporaries p) (listed l) l.folders.artifacts (λ m.
        contains-append m (reversed l.committed) (temporaries p)
        ∙ ap (λ b. b || contains m (temporaries p)) (contains-reversed m l.committed)
        ∙ or_comm (contains m l.committed) (contains m (temporaries p))
        ∙ sym (contains-append m (temporaries p) l.committed))

  -- What a log says of the artifacts between two rounds.
  pub record IsClean (l : Log) : Type 0 where
    pub cleared : without (listed l) l.folders.artifacts ≡ old.artifacts
    pub present : All (λ t. contains t l.folders.artifacts ≡ true) l.committed

  abbrev pub Outcome : Ended → Type 0
  Outcome (published l) = IsPublished l.folders
  Outcome (failed l) = IsUndone (rollback p l)

  abbrev pub EndsWell : List Call → Log → Type 0
  EndsWell cs l = (fault : Option ℕ) → Outcome (run_calls p fault cs l)

  pub step-EndsWell :
      (c : Call) (cs : List Call) (l : Log)
      → IsUndone (rollback p l)
      → ((next : Log) → perform p c l ≡ some next → EndsWell cs next)
      → EndsWell (c ∷ cs) l
  unfolding run_calls
  step-EndsWell c cs l u k (some zero) = u
  step-EndsWell c cs l u k none = elim (Option-cases (perform p c l)) [
    | inl e ↦ rw (Outcome, e) u
    | inr (next, e) ↦ rw (Outcome, e) (k next e none)
  ]
  step-EndsWell c cs l u k (some (suc n)) = elim (Option-cases (perform p c l)) [
    | inl e ↦ rw (Outcome, e) u
    | inr (next, e) ↦ rw (Outcome, e) (k next e (some n))
  ]

  pub check-EndsWell :
      (cs : List Call) (l : Log) → IsUndone (rollback p l) → EndsWell cs l → EndsWell (check ∷ cs) l
  unfolding perform
  check-EndsWell cs l u k =
      step-EndsWell check cs l u (λ next e. subst (EndsWell cs) (eq_of_some e) k)

  -- The receipt's file is not yet created.
  pub record IsEarly (l : Log) : Type 0 where
    pub not_made : l.receipt_temp_made ≡ false
    pub not_committed : l.receipt_committed ≡ false
    pub root_same : l.folders.root ≡ old.root

  pub IsEarly-root : (l : Log) → IsEarly l → (rollback p l).root ≡ old.root
  unfolding rollback
  IsEarly-root l e = rw (e.not_made, e.not_committed) e.root_same

  pub IsClean-IsUndone :
      (l : Log) → IsClean l → (rollback p l).root ≡ old.root → IsUndone (rollback p l)
  IsClean-IsUndone l c e = record {
    same_root = e;
    artifacts_kept = inl (rollback-artifacts l ∙ c.cleared);
  }

  without-last :
      (ns : List String) (a : List String) (t : String)
      → without ns (a ++ t ∷ []) ≡ (if contains t ns then without ns a else without ns a ++ t ∷ [])
  unfolding without
  without-last ns [] t = ground arith
  without-last ns (m ∷ a) t = ground (arith, without-last ns a t)

  -- Between the link of a target and its note, a failure leaves that target behind.
  pub linked-IsUndone :
      (l : Log) (t : String)
      → IsClean l
      → contains t (targets p) ≡ true
      → (rollback p l).root ≡ old.root
      → IsUndone (rollback p (with_artifacts (l.folders.artifacts ++ t ∷ []) l))
  unfolding rollback
  linked-IsUndone l t c h e =
      let next = with_artifacts (l.folders.artifacts ++ t ∷ []) l in
      let left : (rollback p next).artifacts ≡ (
          if contains t (listed l)
          then without (listed l) l.folders.artifacts
          else without (listed l) l.folders.artifacts ++ t ∷ []) =
        rollback-artifacts next ∙ without-last (listed l) l.folders.artifacts t in
      record {
        same_root = e;
        artifacts_kept = elim (Bool-cases (contains t (listed l))) [
          | inl k ↦ inl (subst (λ x. (rollback p next).artifacts ≡ x) c.cleared (rw k at left))
          | inr k ↦ inr (
            t,
            h,
            subst (λ x. (rollback p next).artifacts ≡ x ++ t ∷ []) c.cleared (rw k at left),
          )
        ];
      }

  -- The note makes the log clean again.
  pub noted-IsClean :
      (l : Log) (t : String)
      → IsClean l
      → contains t l.folders.artifacts ≡ false
      → IsClean (record (with_artifacts (l.folders.artifacts ++ t ∷ []) l) {
        committed = l.committed ++ t ∷ [];
      })
  noted-IsClean l t c n = record {
    cleared =
        ap (λ ns. without ns (l.folders.artifacts ++ t ∷ []))
          (sym (append_assoc (temporaries p) l.committed (t ∷ [])))
        ∙ without-add t (listed l) l.folders.artifacts n
        ∙ c.cleared;
    present =
        All-append (λ m. contains m (l.folders.artifacts ++ t ∷ []) ≡ true) l.committed (t ∷ [])
          (All-imp (λ m. contains m l.folders.artifacts ≡ true)
            (λ m. contains m (l.folders.artifacts ++ t ∷ []) ≡ true) l.committed
            (λ m h. contains-last m t l.folders.artifacts ∙ rw h refl) c.present)
          (
            contains-last t t l.folders.artifacts
                ∙ rw (eq_refl t) (or_comm (contains t l.folders.artifacts) true),
            tt,
          );
  }

  -- A temporary goes, and no target with it.
  pub unlinked-IsClean :
      (l : Log) (n : String)
      → IsClean l
      → contains n (temporaries p) ≡ true
      → All (λ t. str_eq t n ≡ false) l.committed
      → IsClean (with_artifacts (remove n l.folders.artifacts) l)
  unlinked-IsClean l n c h others = record {
    cleared =
        without-remove_listed n (listed l) l.folders.artifacts
          (contains-append n (temporaries p) l.committed ∙ rw h refl)
        ∙ c.cleared;
    present = kept l.committed others c.present;
  }
    where
      kept :
          (ts : List String)
          → All (λ t. str_eq t n ≡ false) ts
          → All (λ t. contains t l.folders.artifacts ≡ true) ts
          → All (λ t. contains t (remove n l.folders.artifacts) ≡ true) ts
      kept [] o q = tt
      kept (t ∷ ts) o q = (contains-remove t n l.folders.artifacts o.0 ∙ q.0, kept ts o.1 q.1)
