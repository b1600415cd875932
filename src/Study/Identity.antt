-- ===== src/Study/Identity.antt =====
-- `PlanSource` and `RuntimeIdentity`: what a plan freezes of the code that executes it.
use browserbench.Prelude.{
  String, ◌≡◌, Bool, true, false, not, ◌&&◌, ◌||◌, Option, none, some, List, [], ◌∷◌, str_eq,
  if◌then◌else◌,
}
use browserbench.Json.{
  lookup, bool, str, Value, scalar, obj, field, end, plan_error, Py, ok, raise, has_field, item_of,
  same_keys,
}
use browserbench.Study.Texts.{is_sha256, is_git_commit, is_stripped}

abbrev pub text : String → Value
text s = scalar (str s)

-- PlanSource. `git_dirty` is False and `canonical_eligible` True in every instance.
pub record PlanSource : Type 0 where
  pub release : String
  pub git_commit : String
  pub source_tree_sha256 : String

-- RuntimeIdentity, with the algorithm and the package that every instance has.
pub record RuntimeIdentity : Type 0 where
  pub tree_sha256 : String

abbrev pub runtime_tree_algorithm : String
runtime_tree_algorithm = "sha256-btb-runtime-tree-v1"

unfoldable pub source_to_dict : PlanSource → Value
source_to_dict s = obj (
    field "release" (text s.release) (
      field "git_commit" (text s.git_commit) (
        field "git_dirty" (scalar (bool false)) (
          field "source_tree_sha256" (text s.source_tree_sha256)
            (field "canonical_eligible" (scalar (bool true)) end)))))

-- PlanSource.receipt_source
unfoldable pub receipt_source : PlanSource → Value
receipt_source s = obj (
    field "git_commit" (text s.git_commit) (
      field "git_dirty" (scalar (bool false))
        (field "source_tree_sha256" (text s.source_tree_sha256) end)))

abbrev pub source_fields : List String
source_fields =
    "release" ∷ "git_commit" ∷ "git_dirty" ∷ "source_tree_sha256" ∷ "canonical_eligible" ∷ []

unfoldable pub is_source : PlanSource → Bool
unfolding is_stripped is_git_commit is_sha256
is_source s = is_stripped s.release && is_git_commit s.git_commit && is_sha256 s.source_tree_sha256

-- The attributes of `cls(**value)` as the checks want them, in the order of `source_fields`.
unfoldable pub source_of : (release commit dirty tree eligible : Value) → Py PlanSource
unfolding is_source
source_of (scalar (str r)) (scalar (str c)) (scalar (bool false)) (scalar (str t))
      (scalar (bool true)) =
    let s : PlanSource = record { release = r; git_commit = c; source_tree_sha256 = t } in
    if is_source s then ok s else raise plan_error
source_of _ _ _ _ _ = raise plan_error

-- PlanSource.from_plan
unfoldable pub source_from_plan : Value → Py PlanSource
unfolding same_keys item_of source_of
source_from_plan (obj fs) =
    if same_keys source_fields fs
    then source_of (item_of "release" fs) (item_of "git_commit" fs) (item_of "git_dirty" fs)
        (item_of "source_tree_sha256" fs) (item_of "canonical_eligible" fs)
    else raise plan_error
source_from_plan _ = raise plan_error

-- manifest.SourceProvenance
pub record SourceProvenance : Type 0 where
  pub git_commit : Option String
  pub git_dirty : Bool
  pub source_tree_sha256 : String

-- manifest.RELEASE_VERSION
abbrev pub release_version : String
release_version = "0.1.0"

-- `from_provenance` after `require_canonical_source`.
unfoldable pub source_from_provenance : SourceProvenance → Py PlanSource
unfolding is_git_commit is_sha256
source_from_provenance p = elim p.git_commit [
  | none ↦ raise plan_error
  | some c ↦
      if p.git_dirty || not (is_git_commit c && is_sha256 p.source_tree_sha256)
      then raise plan_error
      else ok (record {
        release = release_version;
        git_commit = c;
        source_tree_sha256 = p.source_tree_sha256;
      })
]

-- PlanSource.to_provenance
abbrev pub to_provenance : PlanSource → SourceProvenance
to_provenance s = record {
  git_commit = some s.git_commit;
  git_dirty = false;
  source_tree_sha256 = s.source_tree_sha256;
}

unfoldable pub runtime_to_dict : RuntimeIdentity → Value
runtime_to_dict r = obj (
    field "algorithm" (text runtime_tree_algorithm)
      (field "package" (text "btb") (field "tree_sha256" (text r.tree_sha256) end)))

unfoldable pub runtime_of : (algorithm distribution tree : Value) → Py RuntimeIdentity
unfolding is_sha256
runtime_of (scalar (str a)) (scalar (str p)) (scalar (str t)) =
    if str_eq a runtime_tree_algorithm && str_eq p "btb" && is_sha256 t
    then ok (record { tree_sha256 = t })
    else raise plan_error
runtime_of _ _ _ = raise plan_error

-- RuntimeIdentity.from_plan
unfoldable pub runtime_from_plan : Value → Py RuntimeIdentity
unfolding same_keys item_of runtime_of
runtime_from_plan (obj fs) =
    if same_keys ("algorithm" ∷ "package" ∷ "tree_sha256" ∷ []) fs
    then runtime_of (item_of "algorithm" fs) (item_of "package" fs) (item_of "tree_sha256" fs)
    else raise plan_error
runtime_from_plan _ = raise plan_error

pub source_from_plan-source_to_dict :
    (s : PlanSource) → is_source s ≡ true → source_from_plan (source_to_dict s) ≡ ok s
unfolding source_from_plan source_to_dict same_keys has_field item_of lookup source_of
source_from_plan-source_to_dict s h = rw h

pub runtime_from_plan-runtime_to_dict :
    (r : RuntimeIdentity)
    → is_sha256 r.tree_sha256 ≡ true
    → runtime_from_plan (runtime_to_dict r) ≡ ok r
unfolding runtime_from_plan runtime_to_dict same_keys has_field item_of lookup runtime_of
runtime_from_plan-runtime_to_dict r h = rw h
