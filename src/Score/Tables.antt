-- ===== src/Score/Tables.antt =====
-- Snapshots of the four tables, and the row comparisons of score.py. Rows come from
-- `db.full_snapshot`, so every row has the columns of its table.
use browserbench.Prelude.{
  ℕ, String, Bool, true, false, not, ◌&&◌, Option, none, some, List, [], ◌∷◌, str_eq, ◌==◌,
  if◌then◌else◌, length, any, filter,
}
use browserbench.Table.{has_id}
use browserbench.Json.{pos, Scalar, null, int, real, str}
use browserbench.Db.{User, Draft, Message, Attempt, Db, Outcome, committed, duplicate_rejected}

-- An `OracleSnapshot` is the state of the four tables.
abbrev pub Snapshot : Type 0
Snapshot = Db

abbrev pub number : ℕ → Scalar
number n = int (pos n)

-- A float column.
abbrev pub time : ℕ → Scalar
time t = real (pos t)

-- row.get(key)
unfoldable pub draft_cell : Draft → String → Scalar
draft_cell d key =
    if str_eq key "id"
    then number d.id
    else if str_eq key "user_id"
    then number d.user_id
    else if str_eq key "subject"
    then str d.subject
    else if str_eq key "body"
    then str d.body
    else if str_eq key "status"
    then str d.status
    else if str_eq key "created_at"
    then time d.created_at
    else if str_eq key "updated_at"
    then time d.updated_at
    else null

-- a == b on rows
unfoldable pub user_same : User → User → Bool
user_same a b = a.id == b.id && str_eq a.name b.name

unfoldable pub draft_same : Draft → Draft → Bool
draft_same a b =
    a.id == b.id
    && (a.user_id == b.user_id
        && (str_eq a.subject b.subject
            && (str_eq a.body b.body
                && (str_eq a.status b.status
                    && (a.created_at == b.created_at && a.updated_at == b.updated_at)))))

unfoldable pub message_same : Message → Message → Bool
message_same a b =
    a.id == b.id
    && (a.user_id == b.user_id
        && (a.draft_id == b.draft_id
            && (str_eq a.subject b.subject
                && (str_eq a.body b.body
                    && (str_eq a.send_uid b.send_uid && a.sent_at == b.sent_at)))))

abbrev pub outcome_same : Outcome → Outcome → Bool
outcome_same committed committed = true
outcome_same duplicate_rejected duplicate_rejected = true
outcome_same _ _ = false

unfoldable pub attempt_same : Attempt → Attempt → Bool
attempt_same a b =
    a.id == b.id
    && (a.draft_id == b.draft_id
        && (str_eq a.send_uid b.send_uid
            && (outcome_same a.outcome b.outcome && a.created_at == b.created_at)))

module _ {ℓ} {A : Type ℓ} (same : A → A → Bool) where
  -- xs == ys
  unfoldable pub rows_same : List A → List A → Bool
  rows_same [] [] = true
  rows_same (x ∷ xs) (y ∷ ys) = same x y && rows_same xs ys
  rows_same _ _ = false

module _ {ℓ} {A : Type ℓ} (id : A → ℕ) where
  -- _by_id(rows).get(k): of rows with one key the last is in the dict.
  unfoldable pub by_id : ℕ → List A → Option A
  by_id k [] = none
  by_id k (x ∷ xs) = elim (by_id k xs) [
    | some r ↦ some r
    | none ↦ if id x == k then some x else none
  ]

  -- _new_rows
  unfoldable pub new_rows : (before after : List A) → List A
  new_rows before after = filter (λ r. not (has_id id (id r) before)) after

  abbrev pub same_entry : (A → A → Bool) → Option A → Option A → Bool
  same_entry same (some x) (some y) = same x y
  same_entry same none none = true
  same_entry same _ _ = false

  -- _existing_rows_changed
  unfoldable pub existing_rows_changed : (A → A → Bool) → (before after : List A) → Bool
  unfolding by_id
  existing_rows_changed same before after =
      any (λ x. not (same_entry same (by_id (id x) after) (by_id (id x) before))) before

pub data EffectState : Type 0 where
  zero_effects exactly_one multiple not_applicable : EffectState

-- _cardinality
unfoldable pub cardinality : ℕ → EffectState
cardinality n = if n == 0 then zero_effects else if n == 1 then exactly_one else multiple

-- The duplicate attempts that `evaluate` counts.
unfoldable pub duplicates_of : List Attempt → ℕ
duplicates_of rows = length (filter (λ a. outcome_same a.outcome duplicate_rejected) rows)
