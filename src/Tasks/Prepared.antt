-- ===== src/Tasks/Prepared.antt =====
-- What `prepare_initial_state` of runner.py leaves behind.
use browserbench.Prelude.{ℕ, String, ◌≡◌, refl, ◌∙◌, Option, none, some, List, [], ◌∷◌, arith}
use browserbench.Table.{max_id, next_id}
use browserbench.Json.{Value}
use browserbench.Db.{reset, seed_draft, messages, insert_draft, Db, Result}
use browserbench.Db.Invariant.{IsValid}
use browserbench.Db.Keeps.{seed_draft-IsValid, reset-IsValid}
use browserbench.Tasks.Runner.{
  read_seed, then_seed, seed_all, initial_drafts, load_drafts, prepare_initial_state, Seed,
  RunnerError, bad_task,
}

-- The state of a run that has not begun: a valid database with the user alice and no message.
pub record IsFresh (db : Db) : Type 0 where
  pub valid : IsValid db
  pub users_are : db.users ≡ record { id = 1; name = "alice" } ∷ []
  pub no_message : db.messages ≡ []
  pub no_attempt : db.send_attempts ≡ []

seed_draft-others :
    (t : ℕ) (s b st : String) (u : ℕ) (k : Option ℕ) (db : Db)
    → ((seed_draft t s b st u k db).1.users ≡ db.users)
      × ((seed_draft t s b st u k db).1.messages ≡ db.messages)
      × ((seed_draft t s b st u k db).1.send_attempts ≡ db.send_attempts)
unfolding seed_draft insert_draft
seed_draft-others t s b st u k db = ground arith

seed_draft-IsFresh :
    (t : ℕ) (s b st : String) (u : ℕ) (k : Option ℕ) (db : Db)
    → IsFresh db
    → IsFresh (seed_draft t s b st u k db).1
seed_draft-IsFresh t s b st u k db f =
    let (users, messages, attempts) = seed_draft-others t s b st u k db in
    record {
      valid = seed_draft-IsValid t s b st u k db f.valid;
      users_are = users ∙ f.users_are;
      no_message = messages ∙ f.no_message;
      no_attempt = attempts ∙ f.no_attempt;
    }

then_seed-IsFresh :
    (r : Result ℕ) (db : Db) (rest : Db → Option RunnerError × Db)
    → IsFresh db
    → IsFresh (rest db).1
    → IsFresh (then_seed (r, db) rest).1
then_seed-IsFresh (Result.ok k) db rest f g = g
then_seed-IsFresh (Result.raise e) db rest f g = f

seed_all-IsFresh :
    (t user_id : ℕ) (vs : List Value) (db : Db) → IsFresh db → IsFresh (seed_all t user_id vs db).1
unfolding seed_all
seed_all-IsFresh t u [] db f = f
seed_all-IsFresh t u (v ∷ vs) db f = go (read_seed v) (λ db' f'. seed_all-IsFresh t u vs db' f')
  where
    go :
        (o : Option Seed)
        → ((db' : Db) → IsFresh db' → IsFresh (seed_all t u vs db').1)
        → IsFresh
            (elim o as (λ _. Option RunnerError × Db) [
              | none ↦ (some bad_task, db)
              | some s ↦
                  then_seed
                    (seed_draft t s.subject s.body s.status u s.draft_id db)
                    (seed_all t u vs)
            ]).1
    go none more = f
    go (some s) more =
        let r = seed_draft t s.subject s.body s.status u s.draft_id db in
        let f' = seed_draft-IsFresh t s.subject s.body s.status u s.draft_id db f in
        then_seed-IsFresh r.0 r.1 (seed_all t u vs) f' (more r.1 f')

reset-IsFresh : (db : Db) → IsFresh (reset "alice" db)
unfolding reset
reset-IsFresh db = record {
  valid = reset-IsValid "alice" db;
  users_are = unfold next_id max_id in refl;
  no_message = refl;
  no_attempt = refl;
}

-- Whatever a task definition says and whatever an earlier run left behind, and also where the
-- set-up ends with an exception, the database that `prepare_initial_state` leaves is valid, its only
-- user is alice, and it has no message and no send attempt.
pub prepare_initial_state-IsFresh :
    (t user_id : ℕ) (task : Value) (db : Db) → IsFresh (prepare_initial_state t user_id task db).1
unfolding prepare_initial_state load_drafts
prepare_initial_state-IsFresh t user_id task db = go (initial_drafts task)
  where
    go : (o : Option (List Value)) → IsFresh (load_drafts t user_id o (reset "alice" db)).1
    go none = reset-IsFresh db
    go (some vs) = seed_all-IsFresh t user_id vs (reset "alice" db) (reset-IsFresh db)
