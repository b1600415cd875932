-- ===== src/Summary/Pair.antt =====
-- `write_summaries`: the two targets are moved to backups and replaced, and a failure moves the backups
-- back. Any set of its calls may raise; the calls of the rollback raise only where a backup is gone.
use browserbench.Prelude.{
  String, Bool, true, false, not, ◌&&◌, Option, none, some, List, [], ◌∷◌, str_eq, if◌then◌else◌,
}
use browserbench.Json.{
  ◌>>=◌, require, Value, Fields, PyError, receipt_error, file_not_found_error, Py, ok, raise,
}
use browserbench.Summary.Binding.{
  csv_summary_hash, csv_summary_hash_file, markdown_summary_hash, summary_hash,
}

-- What stands under a name: a regular file with its content, or something else.
pub data Node : Type 0 where
  regular_file : String → Node
  special : Node

-- A target and its backup.
pub record Place : Type 0 where
  pub file : Option Node
  pub backup : Option Node

-- The entry of a target in `backups`: none yet, or whether it has a backup.
pub data Listing : Type 0 where
  unlisted : Listing
  listed : (has_backup : Bool) → Listing

pub record Target : Type 0 where
  pub place : Place
  pub entry : Listing

pub record Pair : Type 0 where
  pub csv : Target
  pub markdown : Target

-- _move_to_backup, appended to `backups`
unfoldable pub move_to_backup : Option Node → Option Node → Py Target
move_to_backup none backup =
    ok (record { place = record { file = none; backup = backup }; entry = listed false })
move_to_backup (some (regular_file c)) backup =
    ok (record {
      place = record { file = none; backup = some (regular_file c) };
      entry = listed true;
    })
move_to_backup (some special) backup = raise receipt_error

-- _replace
unfoldable pub replace_file : String → Target → Target
replace_file payload t = record t { place = record t.place { file = some (regular_file payload) } }

-- The removal of a backup that is listed.
unfoldable pub drop_backup : Listing → Place → Py Place
drop_backup unlisted p = ok p
drop_backup (listed false) p = ok p
drop_backup (listed true) p = elim p.backup [
  | none ↦ raise file_not_found_error
  | some b ↦ ok (record { file = p.file; backup = none })
]

-- _restore_backup, of what is listed; a backup that is gone raises.
unfoldable pub restore_backup : Listing → Place → Bool × Place
restore_backup unlisted p = (true, p)
restore_backup (listed false) p = (true, record { file = none; backup = p.backup })
restore_backup (listed true) p = elim p.backup [
  | none ↦ (false, record { file = none; backup = none })
  | some b ↦ (true, record { file = some b; backup = none })
]

abbrev pub is_backed : Listing → Bool
is_backed (listed true) = true
is_backed _ = false

-- The calls of the try block, in order.
pub data Call : Type 0 where
  backup_csv backup_markdown replace_csv replace_markdown check_pair unlink_csv unlink_markdown :
      Call

abbrev content_of : Option Node → Option String
content_of (some (regular_file c)) = some c
content_of _ = none

abbrev pub is_the : String → Option String → Bool
is_the s none = false
is_the s (some t) = str_eq t s

-- What the machine answers to a call: an exception, or nothing.
abbrev pub allowed : Option PyError → Py (Unit {0})
allowed none = ok tt
allowed (some e) = raise e

-- The loop at the end calls `unlink` only for a target with a backup.
abbrev pub is_made : Call → Pair → Bool
is_made unlink_csv p = is_backed p.csv.entry
is_made unlink_markdown p = is_backed p.markdown.entry
is_made _ p = true

abbrev pub answer : Bool → Option PyError → Py (Unit {0})
answer false o = ok tt
answer true o = allowed o

-- The end of the try block, which goes on only after a call that returns.
unfoldable pub end_of : Py Pair → Pair → (Pair → Py (Unit {0}) × Pair) → Py (Unit {0}) × Pair
end_of (raise e) p next = (raise e, p)
end_of (ok q) p next = next q

abbrev pub calls_of_try : List Call
calls_of_try =
    backup_csv ∷ backup_markdown ∷ replace_csv ∷ replace_markdown ∷ check_pair ∷ unlink_csv
    ∷ unlink_markdown ∷ []

-- The rest of the rollback, once the CSV target is restored or that has raised.
unfoldable pub roll_back_rest : Bool × Place → Pair → Bool × Pair
unfolding restore_backup
roll_back_rest (false, q) p = (false, record p { csv = record p.csv { place = q } })
roll_back_rest (true, q) p =
    let (done, r) = restore_backup p.markdown.entry p.markdown.place in
    (done, record { csv = record p.csv { place = q }; markdown = record p.markdown { place = r } })

-- The rollback: the CSV target first, and the Markdown target only if that succeeds.
unfoldable pub roll_back : Pair → Bool × Pair
unfolding restore_backup roll_back_rest
roll_back p = roll_back_rest (restore_backup p.csv.entry p.csv.place) p

abbrev raised : PyError → Bool → Py (Unit {0})
raised e true = raise e
raised e false = raise receipt_error

-- What the try block and its handler leave.
unfoldable pub handled : Py (Unit {0}) × Pair → Py (Unit {0}) × Pair
unfolding roll_back
handled (ok _, p) = (ok tt, p)
handled (raise e, p) = let (done, q) = roll_back p in (raised e done, q)

abbrev pub fresh_target : Place → Target
fresh_target p = record { place = p; entry = unlisted }

module _ (column : String → Option (List (Option String))) (declared : String → List String) where
  abbrev pub column_of : Option String → Option (List (Option String))
  column_of none = none
  column_of (some c) = column c

  abbrev pub declared_of : Option String → List String
  declared_of none = []
  declared_of (some c) = declared c

  -- accepted_pair_sha256
  unfoldable pub accepted_pair_sha256 : Pair → Option String
  unfolding csv_summary_hash_file markdown_summary_hash
  accepted_pair_sha256 p = elim (csv_summary_hash_file (column_of (content_of p.csv.place.file))) [
    | none ↦ none
    | some s ↦ elim (markdown_summary_hash (declared_of (content_of p.markdown.place.file))) [
      | none ↦ none
      | some t ↦ if str_eq s t then some s else none
    ]
  ]

  -- One call, which the machine may fail.
  unfoldable pub perform_call :
      (expected csv_payload markdown_payload : String) → Call → Pair → Py Pair
  unfolding move_to_backup replace_file drop_backup accepted_pair_sha256
  perform_call expected c m backup_csv p =
      move_to_backup p.csv.place.file p.csv.place.backup >>= λ t. ok (record p { csv = t })
  perform_call expected c m backup_markdown p =
      move_to_backup p.markdown.place.file p.markdown.place.backup >>= λ t.
      ok (record p { markdown = t })
  perform_call expected c m replace_csv p = ok (record p { csv = replace_file c p.csv })
  perform_call expected c m replace_markdown p =
      ok (record p { markdown = replace_file m p.markdown })
  perform_call expected c m check_pair p =
      require (is_the expected (accepted_pair_sha256 p)) receipt_error >>= λ _. ok p
  perform_call expected c m unlink_csv p = drop_backup p.csv.entry p.csv.place >>= λ q.
      ok (record p { csv = record p.csv { place = q } })
  perform_call expected c m unlink_markdown p =
      drop_backup p.markdown.entry p.markdown.place >>= λ q.
      ok (record p { markdown = record p.markdown { place = q } })

  -- The try block up to its end or its first exception.
  unfoldable pub try_calls :
      (raises : Call → Option PyError) (expected c m : String)
      → List Call
      → Pair
      → Py (Unit {0}) × Pair
  unfolding perform_call end_of
  try_calls raises expected c m [] p = (ok tt, p)
  try_calls raises expected c m (call ∷ calls) p =
      end_of (answer (is_made call p) (raises call) >>= λ _. perform_call expected c m call p) p
        (λ q. try_calls raises expected c m calls q)

  -- What write_summaries requires before it changes a file.
  unfoldable pub publishable :
      (sha256 : Value → String) (same_target : Bool)
      → Fields
      → (c m : String) → (csv markdown : Place) → Py String
  unfolding summary_hash csv_summary_hash markdown_summary_hash
  publishable sha256 same_target document c m csv markdown =
      require (not same_target) receipt_error >>= λ _.
      require (elim csv.backup [ none ↦ true | some _ ↦ false ]) receipt_error >>= λ _.
      require (elim markdown.backup [ none ↦ true | some _ ↦ false ]) receipt_error >>= λ _.
      summary_hash sha256 document >>= λ expected.
      require
        (is_the expected (csv_summary_hash (column c))
          && is_the expected (markdown_summary_hash (declared m)))
        receipt_error
      >>= λ _. ok expected

  -- write_summaries
  unfoldable pub write_summaries :
      (sha256 : Value → String) (raises : Call → Option PyError) (same_target : Bool)
      → Fields
      → (c m : String) → (csv markdown : Place) → Py (Unit {0}) × Place × Place
  unfolding publishable try_calls handled
  write_summaries sha256 raises same_target document c m csv markdown =
      elim (publishable sha256 same_target document c m csv markdown) [
        | raise e ↦ (raise e, csv, markdown)
        | ok expected ↦
            let done = handled (
              try_calls raises expected c m calls_of_try
                (record { csv = fresh_target csv; markdown = fresh_target markdown })) in
            (done.0, done.1.csv.place, done.1.markdown.place)
      ]
