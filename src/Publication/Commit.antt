-- ===== src/Publication/Commit.antt =====
-- `_commit_publication` as the sequence of its calls, any of which may raise, and its rollback.
-- Only the parent writes in the two folders. `verify`, `fsync`, writing, and each comparison of an
-- entry with the one that was expected change no name: such a call passes or raises.
use browserbench.Prelude.{
  ℕ, zero, suc, String, Bool, true, false, not, Option, none, some, List, [], ◌∷◌, ◌++◌, map,
  str_eq, if◌then◌else◌, any, filter,
}

-- The names in the receipt directory and in its artifact directory.
pub record Folders : Type 0 where
  pub root : List String
  pub artifacts : List String

-- _Publication: the temporary and the target name of each artifact, and the two names of the receipt.
pub record Publication : Type 0 where
  pub artifacts : List (String × String)
  pub receipt_temp : String
  pub receipt_target : String

pub data Call : Type 0 where
  check : Call
  link_artifact : (temporary target : String) → Call
  note_committed : (target : String) → Call
  unlink_temporary : (temporary : String) → Call
  create_receipt_temp link_receipt unlink_receipt_temp : Call

-- The folders, `committed`, whether `receipt_temp` has an owner, and `receipt_committed`.
pub record Log : Type 0 where
  pub folders : Folders
  pub committed : List String
  pub receipt_temp_made : Bool
  pub receipt_committed : Bool

unfoldable pub contains : String → List String → Bool
contains n ns = any (str_eq n) ns

-- os.unlink
unfoldable pub remove : String → List String → List String
remove n ns = filter (λ m. not (str_eq m n)) ns

abbrev pub with_artifacts : List String → Log → Log
with_artifacts a l = record l { folders = record l.folders { artifacts = a } }

abbrev pub with_root : List String → Log → Log
with_root r l = record l { folders = record l.folders { root = r } }

-- What a call does; `none` is FileExistsError.
unfoldable pub perform : Publication → Call → Log → Option Log
unfolding contains remove
perform p check l = some l
perform p (link_artifact temporary target) l =
    if contains target l.folders.artifacts
    then none
    else some (with_artifacts (l.folders.artifacts ++ target ∷ []) l)
perform p (note_committed target) l = some (record l { committed = l.committed ++ target ∷ [] })
perform p (unlink_temporary temporary) l =
    some (with_artifacts (remove temporary l.folders.artifacts) l)
perform p create_receipt_temp l =
    if contains p.receipt_temp l.folders.root
    then none
    else some
        (with_root (l.folders.root ++ p.receipt_temp ∷ []) (record l { receipt_temp_made = true }))
perform p link_receipt l =
    if contains p.receipt_target l.folders.root
    then none
    else some (
        with_root (l.folders.root ++ p.receipt_target ∷ []) (record l { receipt_committed = true }))
perform p unlink_receipt_temp l = some (with_root (remove p.receipt_temp l.folders.root) l)

-- One round of the loop over the artifacts.
unfoldable pub artifact_calls : (temporary target : String) → List Call
artifact_calls temporary target =
    check
    ∷ check
    ∷ link_artifact temporary target
    ∷ check
    ∷ note_committed target
    ∷ check
    ∷ unlink_temporary temporary
    ∷ check
    ∷ check
    ∷ check
    ∷ []

unfoldable pub receipt_calls : List Call
receipt_calls =
    check ∷ create_receipt_temp ∷ check ∷ check ∷ check ∷ check ∷ link_receipt ∷ check ∷ check
    ∷ unlink_receipt_temp ∷ check ∷ check ∷ []

unfoldable pub loop_calls : List (String × String) → List Call
unfolding artifact_calls receipt_calls
loop_calls [] = receipt_calls
loop_calls ((temporary, target) ∷ rest) = artifact_calls temporary target ++ loop_calls rest

-- for ... : _unlink_owned(...)
unfoldable pub unlink_each : List String → List String → List String
unfolding remove
unlink_each [] folder = folder
unlink_each (n ∷ ns) folder = unlink_each ns (remove n folder)

unfoldable pub reversed : List String → List String
reversed [] = []
reversed (n ∷ ns) = reversed ns ++ n ∷ []

abbrev pub temporaries : Publication → List String
temporaries p = map (λ a. a.0) p.artifacts

abbrev pub targets : Publication → List String
targets p = map (λ a. a.1) p.artifacts

abbrev unlink_if : Bool → String → List String → List String
unlink_if b n folder = if b then remove n folder else folder

-- The outer `except Exception`.
unfoldable pub rollback : Publication → Log → Folders
unfolding remove unlink_each reversed
rollback p l = record {
  root =
      unlink_if l.receipt_committed p.receipt_target
        (unlink_if l.receipt_temp_made p.receipt_temp l.folders.root);
  artifacts = unlink_each (temporaries p) (unlink_each (reversed l.committed) l.folders.artifacts);
}

pub data Ended : Type 0 where
  published : Log → Ended
  failed : Log → Ended

-- The calls in turn. The number counts the calls before one that raises; `none` is no such call.
unfoldable pub run_calls : Publication → Option ℕ → List Call → Log → Ended
unfolding perform
run_calls p fault [] l = published l
run_calls p (some zero) (c ∷ cs) l = failed l
run_calls p none (c ∷ cs) l = elim (perform p c l) [
  | none ↦ failed l
  | some next ↦ run_calls p none cs next
]
run_calls p (some (suc n)) (c ∷ cs) l = elim (perform p c l) [
  | none ↦ failed l
  | some next ↦ run_calls p (some n) cs next
]

abbrev pub begun : Folders → Log
begun f = record {
  folders = f;
  committed = [];
  receipt_temp_made = false;
  receipt_committed = false;
}

-- _commit_publication: whether it returns, and the folders that it leaves.
unfoldable pub commit_publication : Publication → Option ℕ → Folders → Bool × Folders
unfolding run_calls loop_calls rollback
commit_publication p fault f =
    elim (run_calls p fault (check ∷ check ∷ loop_calls p.artifacts) (begun f)) [
      | published l ↦ (true, l.folders)
      | failed l ↦ (false, rollback p l)
    ]
