-- ===== src/Study/Partition.antt =====
-- A report accounts for every planned run: those without a receipt at the start are completed or
-- unstarted, in the order of the plan, and nothing was attempted without being completed.
use browserbench.Prelude.{
  ◌+◌, String, ◌≡◌, refl, sym, ap, ◌∙◌, ◌⊎◌, inl, inr, Bool, false, Option, none, List, [], ◌∷◌,
  ◌++◌, arith, str_eq, eq_iff, Bool-cases, Option-cases, any, All, AllPairs,
}
use browserbench.Json.{Py-cases, Value, Fields, Py, ok}
use browserbench.Study.Matrix.{PlannedRun}
use browserbench.Study.Bindings.{TaskBinding}
use browserbench.Study.Conditions.{Condition}
use browserbench.Study.Opened.{task_and_condition, Study}
use browserbench.Study.Receipts.{ReceiptDirectory}
use browserbench.Study.Execution.{
  falls_short, magnitude, is_existing, pending, has_receipt, publish, deadline_reason,
  parent_failure, stopping, attempt, go_on_after, conclude, verdict, work, check_round, start_run,
  run_step, execute_runs, Round, ExecutionReport, Progress, Budget, Finish, report, raised, Verdict,
  stop_after, failed_at, staged, Step, go_on, halt,
}
use browserbench.Study.Execute.{
  consumed, is_teardown, beginning, prepare, resume, execute_plan, Start,
}
use browserbench.Study.Schedule.{DifferentIds}
use mathlib.Core.List.{append_assoc}
use mathlib.Core.Path.{subst}

-- What a report says of the runs that were pending.
pub record Accounts (expected : List String) (q : ExecutionReport) : Type 0 where
  pub all_attempts_end : q.attempted ≡ q.completed
  pub each_run : q.completed ++ q.unstarted ≡ expected
  pub complete_or_stopped : q.stopped_reason ≡ none → q.unstarted ≡ []

abbrev AccountsFor : List String → Finish → Type 0
AccountsFor expected (report q) = Accounts expected q
AccountsFor expected (raised e) = Unit

-- What a step leaves to be done: the runs completed so far and those still pending.
abbrev StepAccounts : List PlannedRun → List String → Step → Type 0
StepAccounts later expected (go_on p) =
    (p.attempted ≡ p.completed) × (p.completed ++ pending p.existing later ≡ expected)
StepAccounts later expected (halt f d) = AccountsFor expected f

is_existing-append :
    (id k : String) (fs : Fields) (es : List (String × Fields))
    → str_eq id k ≡ false
    → is_existing id (es ++ (k, fs) ∷ []) ≡ is_existing id es
unfolding is_existing
is_existing-append id k fs [] h = rw h refl
is_existing-append id k fs (e ∷ es) h = rw (is_existing-append id k fs es h) refl

pending-append :
    (r : PlannedRun) (fs : Fields) (es : List (String × Fields)) (rs : List PlannedRun)
    → All (DifferentIds r) rs
    → pending (es ++ (r.run_id, fs) ∷ []) rs ≡ pending es rs
unfolding pending
pending-append r fs es [] h = refl
pending-append r fs es (s ∷ rs) h =
    let other : str_eq s.run_id r.run_id ≡ false =
      ground (arith, h.0, eq_iff s.run_id r.run_id, eq_iff r.run_id s.run_id) in
    rw (is_existing-append s.run_id r.run_id fs es other, pending-append r fs es rs h.1) refl

module _ (r : PlannedRun) (later : List PlannedRun) (x : Round) (p : Progress)
    (expected : List String) (balanced : p.attempted ≡ p.completed)
    (due : p.completed ++ r.run_id ∷ pending p.existing later ≡ expected) where
  after : p.completed ++ r.run_id ∷ [] ++ pending p.existing later ≡ expected
  after = append_assoc p.completed (r.run_id ∷ []) (pending p.existing later) ∙ due

  abbrev Attempted : Progress → Type 0
  Attempted q =
      (q.attempted ≡ p.attempted ++ r.run_id ∷ [])
      × (q.completed ≡ p.completed)
      × (q.existing ≡ p.existing)

  -- The run is completed by a receipt that its parent writes or publishes.
  completes :
      (q : Progress)
      → Attempted q
      → (q.attempted ≡ q.completed ++ r.run_id ∷ [])
        × ((q.completed ++ r.run_id ∷ []) ++ pending q.existing later ≡ expected)
  completes q (a, c, e) = (
    a ∙ ap (λ l. l ++ r.run_id ∷ []) (balanced ∙ sym c),
    subst (λ l. (l ++ r.run_id ∷ []) ++ pending q.existing later ≡ expected) (sym c)
        (subst (λ es. (p.completed ++ r.run_id ∷ []) ++ pending es later ≡ expected) (sym e) after),
  )

  go_on_after-StepAccounts :
      (q : Progress) (stage : String)
      → Attempted q
      → StepAccounts later expected (go_on_after r x stage q)
  unfolding go_on_after
  go_on_after-StepAccounts q stage h =
      elim (Option-cases (parent_failure r x stage "setup_error" q.directory)) [
        | inl e ↦ rw (StepAccounts, e) tt
        | inr (d, e) ↦ rw (StepAccounts, e) (completes q h)
      ]

  conclude-StepAccounts :
      (q : Progress) (v : Verdict)
      → All (DifferentIds r) later
      → Attempted q
      → StepAccounts later expected (conclude r later x q v)
  unfolding conclude stopping
  conclude-StepAccounts q (stop_after stage status reason) n h =
      elim (Option-cases (parent_failure r x stage status q.directory)) [
        | inl e ↦ rw (StepAccounts, e) tt
        | inr (d, e) ↦
            let done = completes q h in
            rw (StepAccounts, e)
              (record {
                all_attempts_end = done.0;
                each_run = done.1;
                complete_or_stopped = λ k. cc;
              })
      ]
  conclude-StepAccounts q (failed_at stage) n h = go_on_after-StepAccounts q stage h
  conclude-StepAccounts q (staged receipt) n h =
      elim (Option-cases (publish r.run_id receipt x.stage.artifact_entries q.directory)) [
        | inl e ↦ rw (StepAccounts, e) (go_on_after-StepAccounts q "parent_receipt_publication" h)
        | inr (d, e) ↦ elim (Bool-cases x.commits) [
          | inl c ↦
              let done = completes q h in
              rw (StepAccounts, e, c)
                (done.0, rw (pending-append r receipt q.existing later n) done.1)
          | inr c ↦
              rw (StepAccounts, e, c) (go_on_after-StepAccounts q "parent_receipt_publication" h)
        ]
      ]

Step-cases :
    (t : Step)
    → ((p : Progress) × (t ≡ go_on p)) ⊎ ((f : Finish) × (d : ReceiptDirectory) × (t ≡ halt f d))
Step-cases (go_on p) = inl (p, refl)
Step-cases (halt f d) = inr (f, d, refl)

module _ (sha256 : Value → String) (valid : Fields → Bool) (split : String → Option String)
    (installed : String → Option String) (definition : String → Py Fields) (s : Study) where
  module _ (b : Budget) where
    work-StepAccounts :
        (r : PlannedRun) (later : List PlannedRun) (x : Round) (p : Progress)
        (expected : List String) (d : ReceiptDirectory)
        → p.attempted ≡ p.completed
        → p.completed ++ r.run_id ∷ pending p.existing later ≡ expected
        → All (DifferentIds r) later
        → StepAccounts later expected (
            work sha256 valid split installed definition s b r later x (record p { directory = d }))
    unfolding work
    work-StepAccounts r later x p expected d balanced due n =
        elim (Bool-cases (has_receipt r.run_id (x.during d))) [
          | inl e ↦ rw e tt
          | inr e ↦ rw e (
              conclude-StepAccounts r later x p expected balanced due
                (record (attempt r (record p { directory = d })) { directory = x.during d })
                (verdict sha256 valid split installed definition s b r x) n (refl, refl, refl))
        ]

    pending-due :
        (r : PlannedRun) (later : List PlannedRun) (es : List (String × Fields))
        → is_existing r.run_id es ≡ false
        → pending es (r ∷ later) ≡ r.run_id ∷ pending es later
    unfolding pending
    pending-due r later es h = rw h refl

    stopping-Accounts :
        (p : Progress) (unstarted expected : List String) (reason : String)
        → p.attempted ≡ p.completed
        → p.completed ++ unstarted ≡ expected
        → AccountsFor expected (stopping p unstarted reason)
    unfolding stopping
    stopping-Accounts p unstarted expected reason h k = record {
      all_attempts_end = h;
      each_run = k;
      complete_or_stopped = λ e. cc;
    }

    start_run-StepAccounts :
        (r : PlannedRun) (later : List PlannedRun) (x : Round) (bound : TaskBinding × Condition)
        (p : Progress) (expected : List String)
        → p.attempted ≡ p.completed
        → is_existing r.run_id p.existing ≡ false
        → p.completed ++ pending p.existing (r ∷ later) ≡ expected
        → All (DifferentIds r) later
        → StepAccounts later expected
            (start_run sha256 valid split installed definition s b r later x bound p)
    unfolding start_run
    start_run-StepAccounts r later x bound p expected h new due n =
        let q = record p { directory = x.meanwhile p.directory } in
        let out =
          stopping-Accounts p (pending p.existing (r ∷ later)) expected deadline_reason h due in
        elim (Bool-cases (falls_short b x.first_check (magnitude bound.0.wall_s))) [
          | inl e ↦ rw e out
          | inr e ↦
              elim (Py-cases (check_round sha256 valid split installed definition s bound x q)) [
                | inl (u, c) ↦
                    elim (Bool-cases (falls_short b x.second_check (magnitude bound.0.wall_s))) [
                      | inl f ↦ rw (StepAccounts, e, c, f) out
                      | inr f ↦
                          rw (StepAccounts, e, c, f)
                            (work-StepAccounts r later x p expected (x.meanwhile p.directory) h
                              (subst (λ l. p.completed ++ l ≡ expected)
                                (pending-due r later p.existing new) due)
                              n)
                    ]
                | inr (k, c) ↦ rw (StepAccounts, e, c) tt
              ]
        ]

    run_step-StepAccounts :
        (r : PlannedRun) (later : List PlannedRun) (x : Round) (p : Progress)
        (expected : List String)
        → p.attempted ≡ p.completed
        → p.completed ++ pending p.existing (r ∷ later) ≡ expected
        → All (DifferentIds r) later
        → StepAccounts later expected
            (run_step sha256 valid split installed definition s b r later x p)
    unfolding run_step
    run_step-StepAccounts r later x p expected h due n =
        elim (Bool-cases (is_existing r.run_id p.existing)) [
          | inl e ↦
              let rest : pending p.existing (r ∷ later) ≡ pending p.existing later =
                unfold pending in rw e refl in
              rw e (h, subst (λ l. p.completed ++ l ≡ expected) rest due)
          | inr e ↦ elim (Py-cases (task_and_condition sha256 s r)) [
            | inl (bound, c) ↦
                rw (StepAccounts, e, c)
                  (start_run-StepAccounts r later x bound p expected h e due n)
            | inr (k, c) ↦ rw (StepAccounts, e, c) tt
          ]
        ]

    pub execute_runs-Accounts :
        (rounds : String → Round) (rs : List PlannedRun) (p : Progress) (expected : List String)
        → p.attempted ≡ p.completed
        → p.completed ++ pending p.existing rs ≡ expected
        → AllPairs DifferentIds rs
        → AccountsFor expected
            (execute_runs sha256 valid split installed definition s b rounds rs p).0
    unfolding execute_runs
    execute_runs-Accounts rounds [] p expected h due n = record {
      all_attempts_end = h;
      each_run = unfold pending in due;
      complete_or_stopped = λ e. refl;
    }
    execute_runs-Accounts rounds (r ∷ rs) p expected h due n =
        let step = run_step sha256 valid split installed definition s b r rs (rounds r.run_id) p in
        let done = run_step-StepAccounts r rs (rounds r.run_id) p expected h due n.0 in
        elim (Step-cases step) [
          | inl (q, e) ↦
              let (h', due') : StepAccounts rs expected (go_on q) =
                subst (StepAccounts rs expected) e done in
              rw (AccountsFor, e) (execute_runs-Accounts rounds rs q expected h' due' n.1)
          | inr (f, d, e) ↦
              let ended : StepAccounts rs expected (halt f d) =
                subst (StepAccounts rs expected) e done in
              rw (AccountsFor, e) ended
        ]

  resume-Accounts :
      (x : Start) (rounds : String → Round) (existing : List (String × Fields))
      → AllPairs DifferentIds s.planned
      → AccountsFor
          (pending existing s.planned)
          (resume sha256 valid split installed definition s x rounds existing).0
  unfolding resume
  resume-Accounts x rounds existing n = elim (Bool-cases (any (λ e. is_teardown e.1) existing)) [
    | inl e ↦
        rw (AccountsFor, e)
          (record { all_attempts_end = refl; each_run = refl; complete_or_stopped = λ k. cc })
    | inr e ↦ elim (Py-cases (consumed existing s.planned)) [
      | inl (spent, c) ↦
          rw (AccountsFor, e, c)
            (execute_runs-Accounts
              (record { limit = x.started + magnitude s.study_wall_s; consumed = spent }) rounds
              s.planned (beginning existing x) (pending existing s.planned) refl refl n)
      | inr (k, c) ↦ rw (AccountsFor, e, c) tt
    ]
  ]

  -- Every planned run without a receipt at the start is completed or unstarted in the report.
  pub execute_plan-Accounts :
      (x : Start) (rounds : String → Round) (existing : List (String × Fields))
      (q : ExecutionReport) (d : ReceiptDirectory)
      → AllPairs DifferentIds s.planned
      → prepare sha256 valid split installed definition s x ≡ ok existing
      → execute_plan sha256 valid split installed definition s x rounds ≡ (report q, d)
      → Accounts (pending existing s.planned) q
  unfolding execute_plan
  execute_plan-Accounts x rounds existing q d n e h =
      let run : resume sha256 valid split installed definition s x rounds existing ≡ (report q, d) =
        rw (execute_plan, e) at h in
      subst (λ o. AccountsFor (pending existing s.planned) o.0) run
        (resume-Accounts x rounds existing n)
