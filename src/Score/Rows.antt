-- ===== src/Score/Rows.antt =====
-- The row comparisons of score.py are equality, and its dicts by key are lookups in the table.
use browserbench.Prelude.{
  ℕ, suc, ◌<◌, ◌≡◌, refl, ap, inl, inr, Bool, true, false, not, Option, none, some, List, [], ◌∷◌,
  arith, eq_iff, ◌==◌, Bool-cases, All, All-imp, All-of_any,
}
use browserbench.Table.{find_row, IsAscending}
use browserbench.Db.{User, Draft, Message, Attempt}
use browserbench.Score.Tables.{
  user_same, draft_same, message_same, attempt_same, rows_same, by_id, same_entry,
  existing_rows_changed,
}

pub user_same_sound : (a b : User) → user_same a b ≡ true → a ≡ b
unfolding user_same
user_same_sound a b h = ground (arith, eq_iff a.name b.name)

pub draft_same_sound : (a b : Draft) → draft_same a b ≡ true → a ≡ b
unfolding draft_same
draft_same_sound a b h =
    ground (arith, eq_iff a.subject b.subject, eq_iff a.body b.body, eq_iff a.status b.status)

pub message_same_sound : (a b : Message) → message_same a b ≡ true → a ≡ b
unfolding message_same
message_same_sound a b h =
    ground (arith, eq_iff a.subject b.subject, eq_iff a.body b.body, eq_iff a.send_uid b.send_uid)

pub attempt_same_sound : (a b : Attempt) → attempt_same a b ≡ true → a ≡ b
unfolding attempt_same
attempt_same_sound a b h = ground (arith, eq_iff a.send_uid b.send_uid)

module _ {ℓ} {A : Type ℓ} (same : A → A → Bool) (sound : (a b : A) → same a b ≡ true → a ≡ b) where
  pub rows_same_sound : (xs ys : List A) → rows_same same xs ys ≡ true → xs ≡ ys
  unfolding rows_same
  rows_same_sound [] [] h = refl
  rows_same_sound [] (y ∷ ys) h = cc
  rows_same_sound (x ∷ xs) [] h = cc
  rows_same_sound (x ∷ xs) (y ∷ ys) h = ground (arith, sound x y, rows_same_sound xs ys)

  -- Rows that are not reported as changed: each is still the one with its key.
  abbrev pub Keeps : (A → ℕ) → List A → List A → A → Type ℓ
  Keeps id before after x = by_id id (id x) after ≡ by_id id (id x) before

  same_entry_sound : (id : A → ℕ) (o p : Option A) → same_entry id same o p ≡ true → o ≡ p
  same_entry_sound id none none h = refl
  same_entry_sound id none (some y) h = cc
  same_entry_sound id (some x) none h = cc
  same_entry_sound id (some x) (some y) h = ap some (sound x y h)

  pub existing_rows_changed_sound :
      (id : A → ℕ) (before after : List A)
      → existing_rows_changed id same before after ≡ false
      → All (Keeps id before after) before
  unfolding existing_rows_changed
  existing_rows_changed_sound id before after h =
      All-imp
        (λ x. not (same_entry id same (by_id id (id x) after) (by_id id (id x) before)) ≡ false)
        (Keeps id before after) before
        (λ x e. same_entry_sound id (by_id id (id x) after) (by_id id (id x) before) (ground arith))
        (All-of_any (λ x. not (same_entry id same (by_id id (id x) after) (by_id id (id x) before)))
          before h)

module _ {ℓ} {A : Type ℓ} (id : A → ℕ) where
  by_id-below :
      (k low : ℕ) (rows : List A) → k < low → IsAscending id low rows → by_id id k rows ≡ none
  unfolding by_id
  by_id-below k low [] h p = refl
  by_id-below k low (x ∷ xs) h p = ground (arith, by_id-below k (suc (id x)) xs)

  -- In a table, where keys ascend, the dict by key finds the row of that key.
  pub by_id-eq-find_row :
      (k low : ℕ) (rows : List A) → IsAscending id low rows → by_id id k rows ≡ find_row id k rows
  unfolding by_id find_row
  by_id-eq-find_row k low [] p = refl
  by_id-eq-find_row k low (x ∷ xs) p = elim (Bool-cases (id x == k)) [
    | inl e ↦ ground (arith, e, by_id-below k (suc (id x)) xs)
    | inr e ↦ ground (arith, by_id-eq-find_row k (suc (id x)) xs p.1)
  ]
