-- ===== src/Db/Keeps.antt =====
-- Each handler of db.py keeps the invariant, whether it returns or raises.
use browserbench.Prelude.{
  ℕ, String, ◌≡◌, refl, inl, inr, true, false, Option, none, some, List, arith, ◌==◌, Bool-cases,
  is_empty, All-imp,
}
use browserbench.Table.{
  next_id, has_id, insert_row, update_row, insert_row-IsAscending, update_row-IsAscending,
  find_row-insert_row, find_row-update_row, has_id-find_row, has_id-insert_row, All-insert_row,
  All-update_row,
}
use browserbench.Db.Schema.{
  status_allowed, insert_draft, User, Draft, Message, Db, Result, ok, raise,
}
use browserbench.Db.Drafts.{
  user_row, init_db, reset, draft_row, chosen_id, inserted, seed_draft, created, create_draft,
  mark_saved, save_draft,
}
use browserbench.Db.Invariant.{HasUser, HasStatus, IsCopy, IsValid}

abbrev draft_key : Draft → ℕ
draft_key d = d.id

IsCopy-insert_row :
    (d : Draft) (drafts : List Draft) (m : Message)
    → has_id draft_key d.id drafts ≡ false
    → IsCopy drafts m
    → IsCopy (insert_row draft_key d drafts) m
IsCopy-insert_row d drafts m fresh c = record {
  source = c.source;
  found = rw (find_row-insert_row draft_key m.draft_id d drafts fresh) (
      ground (arith, c.found, has_id-find_row draft_key m.draft_id drafts c.source c.found, fresh));
  saved = c.saved;
  same_user = c.same_user;
  same_subject = c.same_subject;
  same_body = c.same_body;
}

IsCopy-update_row :
    (t k : ℕ) (drafts : List Draft) (m : Message)
    → IsCopy drafts m
    → IsCopy (update_row draft_key k (mark_saved t) drafts) m
IsCopy-update_row t k drafts m c =
    let moved = find_row-update_row draft_key m.draft_id k (mark_saved t) drafts (λ d. refl) in
    elim (Bool-cases (k == m.draft_id)) [
      | inl e ↦ record {
        source = mark_saved t c.source;
        found = rw (moved, e, c.found);
        saved = refl;
        same_user = c.same_user;
        same_subject = c.same_subject;
        same_body = c.same_body;
      }
      | inr e ↦ record {
        source = c.source;
        found = rw (moved, e) c.found;
        saved = c.saved;
        same_user = c.same_user;
        same_subject = c.same_subject;
        same_body = c.same_body;
      }
    ]

-- What the constraints say of a draft that an INSERT has accepted.
pub record IsAccepted (d : Draft) (db : Db) (db' : Db) : Type 0 where
  pub allowed : status_allowed d.status ≡ true
  pub new_key : has_id draft_key d.id db.drafts ≡ false
  pub owned : HasUser db.users d
  pub result : db' ≡ record db { drafts = insert_row draft_key d db.drafts }

pub insert_draft-IsAccepted :
    (d : Draft) (db : Db) {db' : Db} → insert_draft d db ≡ ok db' → IsAccepted d db db'
unfolding insert_draft
insert_draft-IsAccepted d db h = record {
  allowed = ground arith;
  new_key = ground arith;
  owned = ground arith;
  result = ground arith;
}

with_draft-IsValid :
    (d : Draft) (db : Db)
    → status_allowed d.status ≡ true
    → has_id draft_key d.id db.drafts ≡ false
    → HasUser db.users d
    → IsValid db
    → IsValid (record db { drafts = insert_row draft_key d db.drafts })
with_draft-IsValid d db allowed fresh owned v = record {
  drafts_ordered =
      insert_row-IsAscending draft_key 0 d db.drafts (omega arith) fresh v.drafts_ordered;
  messages_ordered = v.messages_ordered;
  attempts_ordered = v.attempts_ordered;
  statuses = All-insert_row draft_key HasStatus d db.drafts allowed v.statuses;
  owners = All-insert_row draft_key (HasUser db.users) d db.drafts owned v.owners;
  distinct_uids = v.distinct_uids;
  copies =
      All-imp (IsCopy db.drafts) (IsCopy (insert_row draft_key d db.drafts)) db.messages
        (λ m. IsCopy-insert_row d db.drafts m fresh) v.copies;
  audited = v.audited;
}

-- A successful INSERT INTO drafts.
insert_draft-IsValid :
    (d : Draft) (db : Db) {db' : Db} → IsValid db → insert_draft d db ≡ ok db' → IsValid db'
insert_draft-IsValid d db v h =
    let a = insert_draft-IsAccepted d db h in
    rw a.result (with_draft-IsValid d db a.allowed a.new_key a.owned v)

inserted-IsValid :
    (k : ℕ) (d : Draft) (db : Db) → IsValid db → IsValid (inserted k db (insert_draft d db)).1
inserted-IsValid k d db v = go (insert_draft d db) refl
  where
    go : (r : Result Db) → insert_draft d db ≡ r → IsValid (inserted k db r).1
    go (ok db') e = insert_draft-IsValid d db v e
    go (raise x) e = v

created-IsValid :
    (k : ℕ) (d : Draft) (db : Db) → IsValid db → IsValid (created k db (insert_draft d db)).1
created-IsValid k d db v = go (insert_draft d db) refl
  where
    go : (r : Result Db) → insert_draft d db ≡ r → IsValid (created k db r).1
    go (ok db') e = insert_draft-IsValid d db v e
    go (raise x) e = v

pub seed_draft-IsValid :
    (t : ℕ) (subject body status : String) (user_id : ℕ) (draft_id : Option ℕ) (db : Db)
    → IsValid db
    → IsValid (seed_draft t subject body status user_id draft_id db).1
unfolding seed_draft
seed_draft-IsValid t subject body status user_id draft_id db v =
    let k = chosen_id draft_id db in
    inserted-IsValid k (draft_row k user_id subject body status t) db v

pub create_draft-IsValid :
    (t user_id : ℕ) (subject body status : String) (db : Db)
    → IsValid db
    → IsValid (create_draft t user_id subject body status db).1
unfolding create_draft
create_draft-IsValid t user_id subject body status db v =
    let k = next_id draft_key db.drafts in
    created-IsValid k (draft_row k user_id subject body status t) db v

pub save_draft-IsValid : (t k : ℕ) (db : Db) → IsValid db → IsValid (save_draft t k db).1
unfolding save_draft
save_draft-IsValid t k db v = record {
  drafts_ordered =
      update_row-IsAscending draft_key 0 k (mark_saved t) db.drafts (λ d. refl) v.drafts_ordered;
  messages_ordered = v.messages_ordered;
  attempts_ordered = v.attempts_ordered;
  statuses = All-update_row draft_key HasStatus k (mark_saved t) db.drafts (λ d h. refl) v.statuses;
  owners =
      All-update_row draft_key (HasUser db.users) k (mark_saved t) db.drafts (λ d h. h) v.owners;
  distinct_uids = v.distinct_uids;
  copies =
      All-imp (IsCopy db.drafts) (IsCopy (update_row draft_key k (mark_saved t) db.drafts))
        db.messages (λ m. IsCopy-update_row t k db.drafts m) v.copies;
  audited = v.audited;
}

-- A user more changes no other table.
HasUser-insert_row :
    (u : User) (users : List User) (d : Draft)
    → HasUser users d
    → HasUser (insert_row (λ (w : User). w.id) u users) d
HasUser-insert_row u users d h =
    rw (has_id-insert_row (λ (w : User). w.id) d.user_id u users) (ground (arith, h))

pub init_db-IsValid : (seed : Option String) (db : Db) → IsValid db → IsValid (init_db seed db)
unfolding init_db
init_db-IsValid none db v = v
init_db-IsValid (some name) db v = elim (Bool-cases (is_empty db.users)) [
  | inl e ↦ rw e (record {
    drafts_ordered = v.drafts_ordered;
    messages_ordered = v.messages_ordered;
    attempts_ordered = v.attempts_ordered;
    statuses = v.statuses;
    owners =
        All-imp (HasUser db.users)
          (HasUser (insert_row (λ (w : User). w.id) (user_row db.users name) db.users)) db.drafts
          (HasUser-insert_row (user_row db.users name) db.users) v.owners;
    distinct_uids = v.distinct_uids;
    copies = v.copies;
    audited = v.audited;
  })
  | inr e ↦ rw e v
]

pub reset-IsValid : (name : String) (db : Db) → IsValid (reset name db)
unfolding reset
reset-IsValid name db = record {
  drafts_ordered = tt;
  messages_ordered = tt;
  attempts_ordered = tt;
  statuses = tt;
  owners = tt;
  distinct_uids = tt;
  copies = tt;
  audited = refl;
}
