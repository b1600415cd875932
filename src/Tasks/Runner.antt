-- ===== src/Tasks/Runner.antt =====
-- `prepare_initial_state` and `teardown` of runner.py. An exception ends the loop over the drafts. `t` is the clock while the drafts are seeded.
use browserbench.Prelude.{ℕ, String, Option, none, some, List, [], ◌∷◌}
use browserbench.Json.{
  lookup, or_null, items_list, pos, null, int, str, Value, scalar, obj, arr, Fields,
}
use browserbench.Db.{reset, seed_draft, Db, DbError, Result}

-- What the runner can raise: a definition without the columns of a draft, or a database error.
pub data RunnerError : Type 0 where
  bad_task : RunnerError
  database : DbError → RunnerError

-- d[key] of a text: a missing key is a KeyError, a value that is no text is not bound as one.
abbrev text_at : String → Fields → Option String
unfolding lookup
text_at key fs = elim (lookup key fs) [ some (scalar (str s)) ↦ some s | _ ↦ none ]

-- d.get("status", "new")
abbrev status_at : Fields → Option String
unfolding lookup
status_at fs = elim (lookup "status" fs) [
  | none ↦ some "new"
  | some (scalar (str s)) ↦ some s
  | _ ↦ none
]

-- d.get("id")
abbrev id_at : Fields → Option (Option ℕ)
unfolding lookup
id_at fs = elim (or_null (lookup "id" fs)) [
  | scalar null ↦ some none
  | scalar (int (pos n)) ↦ some (some n)
  | _ ↦ none
]

-- The columns of one draft of a definition; `none` where the definition has no such columns.
pub record Seed : Type 0 where
  pub subject : String
  pub body : String
  pub status : String
  pub draft_id : Option ℕ

abbrev seed_of : Option String → Option String → Option String → Option (Option ℕ) → Option Seed
seed_of (some s) (some b) (some st) (some k) =
    some (record { subject = s; body = b; status = st; draft_id = k })
seed_of _ _ _ _ = none

unfoldable pub read_seed : Value → Option Seed
unfolding text_at status_at id_at
read_seed (obj fs) = seed_of (text_at "subject" fs) (text_at "body" fs) (status_at fs) (id_at fs)
read_seed v = none

abbrev pub then_seed : Result ℕ × Db → (Db → Option RunnerError × Db) → Option RunnerError × Db
then_seed (Result.ok k, db) rest = rest db
then_seed (Result.raise e, db) rest = (some (database e), db)

-- The loop over the drafts, ended by the first exception.
unfoldable pub seed_all : (t user_id : ℕ) → List Value → Db → Option RunnerError × Db
unfolding seed_draft read_seed
seed_all t user_id [] db = (none, db)
seed_all t user_id (v ∷ vs) db = elim (read_seed v) [
  | none ↦ (some bad_task, db)
  | some s ↦
      then_seed (seed_draft t s.subject s.body s.status user_id s.draft_id db)
        (seed_all t user_id vs)
]

-- task["initial_state"].get("drafts", [])
abbrev pub initial_drafts : Value → Option (List Value)
unfolding lookup
initial_drafts (obj fs) = elim (or_null (lookup "initial_state" fs)) [
  | obj state ↦ elim (lookup "drafts" state) [
    | none ↦ some []
    | some (arr vs) ↦ some (items_list vs)
    | _ ↦ none
  ]
  | _ ↦ none
]
initial_drafts v = none

unfoldable pub load_drafts : (t user_id : ℕ) → Option (List Value) → Db → Option RunnerError × Db
unfolding seed_all
load_drafts t user_id none db = (some bad_task, db)
load_drafts t user_id (some vs) db = seed_all t user_id vs db

unfoldable pub prepare_initial_state : (t user_id : ℕ) → Value → Db → Option RunnerError × Db
unfolding load_drafts initial_drafts reset
prepare_initial_state t user_id task db =
    load_drafts t user_id (initial_drafts task) (reset "alice" db)

unfoldable pub teardown : Db → Db
unfolding reset
teardown db = reset "alice" db
