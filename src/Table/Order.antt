-- ===== src/Table/Order.antt =====
-- The rows of one table, over the column that is their primary key.
use browserbench.Prelude.{
  ℕ, suc, ◌≤◌, ◌<◌, max, ◌≡◌, refl, inl, inr, Bool, true, false, ◌||◌, Option, none, some, List, [],
  ◌∷◌, ◌++◌, arith, ltb, ◌==◌, if◌then◌else◌, Bool-cases, Option-cases, any, All,
}
use mathlib.Core.Option

module _ {ℓ} {A : Type ℓ} (id : A → ℕ) where
  -- The largest key, and 0 of an empty table.
  unfoldable pub max_id : List A → ℕ
  max_id [] = 0
  max_id (x ∷ xs) = max (id x) (max_id xs)

  -- The key that SQLite gives a row inserted without one: the largest key plus one.
  unfoldable pub next_id : List A → ℕ
  next_id rows = suc (max_id rows)

  -- SELECT * FROM t WHERE id=?
  unfoldable pub find_row : ℕ → List A → Option A
  find_row k [] = none
  find_row k (x ∷ xs) = if id x == k then some x else find_row k xs

  unfoldable pub has_id : ℕ → List A → Bool
  has_id k rows = any (λ x. id x == k) rows

  -- INSERT INTO t, in its place by the key.
  unfoldable pub insert_row : A → List A → List A
  insert_row r [] = r ∷ []
  insert_row r (x ∷ xs) = if ltb (id r) (id x) then r ∷ x ∷ xs else x ∷ insert_row r xs

  -- UPDATE t SET ... WHERE id=?
  unfoldable pub update_row : ℕ → (A → A) → List A → List A
  update_row k f [] = []
  update_row k f (x ∷ xs) = (if id x == k then f x else x) ∷ update_row k f xs

  -- Strictly ascending keys, each at least `low`.
  abbrev pub IsAscending : ℕ → List A → Type 0
  IsAscending low [] = Unit
  IsAscending low (x ∷ xs) = (low ≤ id x) × IsAscending (suc (id x)) xs

  pub IsAscending-mono :
      {low high : ℕ} (rows : List A) → low ≤ high → IsAscending high rows → IsAscending low rows
  IsAscending-mono [] h p = tt
  IsAscending-mono (x ∷ xs) h p = (omega arith, p.1)

  pub insert_row-IsAscending :
      (low : ℕ) (r : A) (rows : List A)
      → low ≤ id r
      → has_id (id r) rows ≡ false
      → IsAscending low rows
      → IsAscending low (insert_row r rows)
  unfolding insert_row has_id
  insert_row-IsAscending low r [] h n p = (h, tt)
  insert_row-IsAscending low r (x ∷ xs) h n p =
      ground (arith, insert_row-IsAscending (suc (id x)) r xs)

  pub update_row-IsAscending :
      (low k : ℕ) (f : A → A) (rows : List A)
      → ((x : A) → id (f x) ≡ id x)
      → IsAscending low rows
      → IsAscending low (update_row k f rows)
  unfolding update_row
  update_row-IsAscending low k f [] h p = tt
  update_row-IsAscending low k f (x ∷ xs) h p =
      ground (arith, h x, update_row-IsAscending (suc (id x)) k f xs h p.1)

  pub has_id-above : (k : ℕ) (rows : List A) → max_id rows < k → has_id k rows ≡ false
  unfolding has_id max_id
  has_id-above k [] h = refl
  has_id-above k (x ∷ xs) h = ground (arith, has_id-above k xs (omega arith))

  pub has_id-next_id : (rows : List A) → has_id (next_id rows) rows ≡ false
  unfolding next_id
  has_id-next_id rows = has_id-above (suc (max_id rows)) rows (omega arith)

  -- A key above all others goes to the end.
  pub insert_row-above :
      (r : A) (rows : List A) → max_id rows < id r → insert_row r rows ≡ rows ++ r ∷ []
  unfolding insert_row max_id
  insert_row-above r [] h = refl
  insert_row-above r (x ∷ xs) h = ground (arith, insert_row-above r xs (omega arith))

  pub find_row-insert_row :
      (k : ℕ) (r : A) (rows : List A)
      → has_id (id r) rows ≡ false
      → find_row k (insert_row r rows) ≡ (if id r == k then some r else find_row k rows)
  unfolding find_row insert_row has_id
  find_row-insert_row k r [] n = refl
  find_row-insert_row k r (x ∷ xs) n = ground (arith, find_row-insert_row k r xs)

  pub find_row-update_row :
      (j k : ℕ) (f : A → A) (rows : List A)
      → ((x : A) → id (f x) ≡ id x)
      → find_row j (update_row k f rows)
        ≡ (if k == j then Option.map f (find_row j rows) else find_row j rows)
  unfolding find_row update_row
  find_row-update_row j k f [] h = ground arith
  find_row-update_row j k f (x ∷ xs) h = ground (arith, h x, find_row-update_row j k f xs h)

  pub find_row-id : (k : ℕ) (rows : List A) (r : A) → find_row k rows ≡ some r → id r ≡ k
  unfolding find_row
  find_row-id k [] r h = cc
  find_row-id k (x ∷ xs) r h = ground (arith, find_row-id k xs r)

  pub has_id-find_row :
      (k : ℕ) (rows : List A) (r : A) → find_row k rows ≡ some r → has_id k rows ≡ true
  unfolding find_row has_id
  has_id-find_row k [] r h = cc
  has_id-find_row k (x ∷ xs) r h = ground (arith, has_id-find_row k xs r)

  pub has_id-insert_row :
      (k : ℕ) (r : A) (rows : List A) → has_id k (insert_row r rows) ≡ (id r == k || has_id k rows)
  unfolding insert_row has_id
  has_id-insert_row k r [] = refl
  has_id-insert_row k r (x ∷ xs) = ground (arith, has_id-insert_row k r xs)

  pub has_id-update_row :
      (j k : ℕ) (f : A → A) (rows : List A)
      → ((x : A) → id (f x) ≡ id x)
      → has_id j (update_row k f rows) ≡ has_id j rows
  unfolding update_row has_id
  has_id-update_row j k f [] h = refl
  has_id-update_row j k f (x ∷ xs) h = ground (arith, h x, has_id-update_row j k f xs h)

  pub insert_row-next :
      (r : A) (rows : List A) → id r ≡ next_id rows → insert_row r rows ≡ rows ++ r ∷ []
  unfolding next_id
  insert_row-next r rows h = insert_row-above r rows (omega arith)

  pub All-insert_row {κ} :
      (P : A → Type κ) (r : A) (rows : List A) → P r → All P rows → All P (insert_row r rows)
  unfolding insert_row
  All-insert_row P r [] h p = (h, tt)
  All-insert_row P r (x ∷ xs) h p = elim (Bool-cases (ltb (id r) (id x))) [
    | inl e ↦ rw e (h, p)
    | inr e ↦ rw e (p.0, All-insert_row P r xs h p.1)
  ]

  pub All-update_row {κ} :
      (P : A → Type κ) (k : ℕ) (f : A → A) (rows : List A)
      → ((x : A) → P x → P (f x))
      → All P rows
      → All P (update_row k f rows)
  unfolding update_row
  All-update_row P k f [] h p = tt
  All-update_row P k f (x ∷ xs) h p = elim (Bool-cases (id x == k)) [
    | inl e ↦ rw e (h x p.0, All-update_row P k f xs h p.1)
    | inr e ↦ rw e (p.0, All-update_row P k f xs h p.1)
  ]

  pub find_row-next_id : (rows : List A) → find_row (next_id rows) rows ≡ none
  find_row-next_id rows = elim (Option-cases (find_row (next_id rows) rows)) [
    | inl e ↦ e
    | inr (r, e) ↦ cc (has_id-find_row (next_id rows) rows r e, has_id-next_id rows)
  ]
