-- ===== src/Server/Atomic.antt =====
-- What the answers of server.py tell of the database.
use browserbench.Prelude.{
  ℕ, String, ◌≡◌, refl, sym, ap, ◌∙◌, ◌≢◌, inl, inr, Bool, false, Option, none, some, List, [], ◌∷◌,
  ◌++◌, arith, str_eq, eq_iff, Bool-cases, true-ne-false,
}
use browserbench.Table.{next_id, find_row, update_row, find_row-insert_row}
use browserbench.Json.{pos, bool, int, real, str, scalar, obj, field, end}
use browserbench.Db.{
  create_draft, save_draft, draft_row, mark_saved, found_draft, created, chosen_uid, send_message,
  sent, message_row, uid_taken, insert_draft, Draft, Message, Db, committed, Result, ok, raise,
}
use browserbench.Db.Invariant.{IsValid}
use browserbench.Db.Keeps.{insert_draft-IsAccepted}
use browserbench.Db.Commit.{
  next_message, next_attempt, attempt_row, transact_found, send_message-eq-transact,
}
use browserbench.Server.Routes.{
  message_json, send_json, status_of, require_visible_control, created_response, saved_response,
  sent_response, route, is_guarded, admit, handle, App, Request, health, index, list_drafts,
  list_messages, create_draft_in, save_draft_in, send_in, Response, json, Check, accepted, refused,
  crashed,
}

abbrev draft_key : Draft → ℕ
draft_key d = d.id

update_row-missing {ℓ} :
    {A : Type ℓ} (id : A → ℕ) (k : ℕ) (f : A → A) (rows : List A)
    → ((x : A) → id (f x) ≡ id x)
    → find_row id k (update_row id k f rows) ≡ none
    → update_row id k f rows ≡ rows
unfolding find_row update_row
update_row-missing id k f [] same h = refl
update_row-missing id k f (x ∷ xs) same h =
    ground (arith, same x, update_row-missing id k f xs same)

save-atomic :
    (t k : ℕ) (db : Db)
    → status_of (saved_response (save_draft t k db).0) ≢ 200
    → (save_draft t k db).1 ≡ db
unfolding save_draft
save-atomic t k db h =
    go (find_row draft_key k (update_row draft_key k (mark_saved t) db.drafts)) refl h
  where
    go :
        (o : Option Draft)
        → find_row draft_key k (update_row draft_key k (mark_saved t) db.drafts) ≡ o
        → status_of (saved_response (found_draft k o)) ≢ 200
        → record db { drafts = update_row draft_key k (mark_saved t) db.drafts } ≡ db
    go none e h' =
        ap (λ (rows : List Draft). record db { drafts = rows })
          (update_row-missing draft_key k (mark_saved t) db.drafts (λ d. refl) e)
    go (some d) e h' = absurd (h' refl)

create-atomic :
    (d : Draft) (db : Db)
    → d.id ≡ next_id draft_key db.drafts
    → status_of (created_response (created (next_id draft_key db.drafts) db (insert_draft d db))).0
      ≢ 200
    → (created_response (created (next_id draft_key db.drafts) db (insert_draft d db))).1 ≡ db
create-atomic d db key = go (insert_draft d db) refl
  where
    k : ℕ
    k = next_id draft_key db.drafts

    placed : (db' : Db) → insert_draft d db ≡ ok db' → find_row draft_key k db'.drafts ≡ some d
    placed db' e =
        let a = insert_draft-IsAccepted d db e in
        rw a.result (find_row-insert_row draft_key k d db.drafts a.new_key ∙ (ground (arith, key)))

    go :
        (r : Result Db)
        → insert_draft d db ≡ r
        → status_of (created_response (created k db r)).0 ≢ 200
        → (created_response (created k db r)).1 ≡ db
    go (raise x) e h = refl
    go (ok db') e h = absurd ((rw (placed db' e) at h) refl)

send-atomic :
    (t : ℕ) (uid : String) (k : ℕ) (o : Option Draft) (db : Db)
    → status_of (sent_response (transact_found t uid k o db).0) ≢ 200
    → (transact_found t uid k o db).1 ≡ db
send-atomic t uid k none db h = refl
send-atomic t uid k (some d) db h = elim (Bool-cases (str_eq d.status "saved")) [
  | inr no_save ↦ rw no_save
  | inl save ↦ elim (Bool-cases (uid_taken uid db.messages)) [
    | inl taken ↦ absurd ((rw (save, taken) at h) refl)
    | inr free ↦ absurd ((rw (save, free) at h) refl)
  ]
]

route-atomic :
    (app : App) (t : ℕ) (fresh : String) (r : Request) (db : Db)
    → IsValid db
    → status_of (route app t fresh r db).0 ≢ 200
    → (route app t fresh r db).1 ≡ db
unfolding route create_draft
route-atomic app t fresh health db v h = refl
route-atomic app t fresh index db v h = refl
route-atomic app t fresh list_drafts db v h = refl
route-atomic app t fresh list_messages db v h = refl
route-atomic app t fresh (create_draft_in subject body) db v h =
    let k = next_id draft_key db.drafts in
    create-atomic (draft_row k 1 subject body "new" t) db refl h
route-atomic app t fresh (save_draft_in k) db v h = save-atomic t k db h
route-atomic app t fresh (send_in k given) db v h =
    let same = send_message-eq-transact t fresh k given db v in
    let o = find_row draft_key k db.drafts in
    rw same (send-atomic t (chosen_uid fresh given) k o db (rw same at h))

-- A request that is not answered with the status 200 leaves a valid database as it was: a failed
-- creation, a save of an unknown draft, a send that is refused, a wrong token.
pub handle-atomic :
    (app : App) (t : ℕ) (fresh : String) (supplied : Option String) (r : Request) (db : Db)
    → IsValid db
    → status_of (handle app t fresh supplied r db).0 ≢ 200
    → (handle app t fresh supplied r db).1 ≡ db
unfolding handle
handle-atomic app t fresh supplied r db v h = elim (Bool-cases (is_guarded r)) [
  | inl g ↦ rw g (admitted (require_visible_control app supplied) (rw g at h))
  | inr g ↦ rw g (route-atomic app t fresh r db v (rw g at h))
]
  where
    admitted :
        (c : Check)
        → status_of (admit c (route app t fresh r db) db).0 ≢ 200
        → (admit c (route app t fresh r db) db).1 ≡ db
    admitted accepted x = route-atomic app t fresh r db v x
    admitted refused x = refl
    admitted crashed x = refl

-- The message that an answer shows; `m` where it shows none.
abbrev shown : Message → Response → Message
shown m
      (json n (
        obj (
          field a x (
            field b y (
              field c
                (obj (
                  field _ (scalar (int (pos i))) (
                    field _ (scalar (int (pos u))) (
                      field _ (scalar (int (pos d))) (
                        field _ (scalar (str s)) (
                          field _
                            (scalar (str t))
                            (field _ (scalar (str w)) (field _ (scalar (real (pos r))) end))))))))
                end))))) =
    record { id = i; user_id = u; draft_id = d; subject = s; body = t; send_uid = w; sent_at = r }
shown m _ = m

abbrev is_confirmed : Response → Bool
is_confirmed (json n (obj (field a (scalar (bool b)) rest))) = b
is_confirmed _ = false

-- What stands behind an acknowledged send of the draft `k` under `uid`.
pub record IsDurable (t : ℕ) (uid : String) (k : ℕ) (m : Message) (db db' : Db) : Type 0 where
  pub draft : Draft
  pub found : find_row draft_key k db.drafts ≡ some draft
  pub saved : draft.status ≡ "saved"
  pub new_uid : uid_taken uid db.messages ≡ false
  pub copied : message_row draft uid t (next_message db) ≡ m
  pub stored : db'.messages ≡ db.messages ++ m ∷ []
  pub logged :
      db'.send_attempts ≡ db.send_attempts ++ attempt_row k uid committed t (next_attempt db) ∷ []

transact-IsDurable :
    (t : ℕ) (uid : String) (k : ℕ) (m : Message) (o : Option Draft) (db : Db)
    → find_row draft_key k db.drafts ≡ o
    → sent_response (transact_found t uid k o db).0 ≡ json 200 (send_json (sent m))
    → IsDurable t uid k m db (transact_found t uid k o db).1
unfolding send_json message_json
transact-IsDurable t uid k m none db e h = absurd (true-ne-false (sym (ap is_confirmed h)))
transact-IsDurable t uid k m (some d) db e h = elim (Bool-cases (str_eq d.status "saved")) [
  | inr no_save ↦ absurd (true-ne-false (sym (ap is_confirmed (rw no_save at h))))
  | inl save ↦ elim (Bool-cases (uid_taken uid db.messages)) [
    | inl taken ↦ absurd (true-ne-false (sym (ap is_confirmed (rw (save, taken) at h))))
    | inr free ↦
        let same : message_row d uid t (next_message db) ≡ m =
          ap (shown m) (rw (save, free) at h) in
        rw (save, free)
          (record {
            draft = d;
            found = e;
            saved = (eq_iff d.status "saved").0 save;
            new_uid = free;
            copied = same;
            stored = ap (λ x. db.messages ++ x ∷ []) same;
            logged = refl;
          })
  ]
]

-- A send that the fixture acknowledges as committed is durable: the draft was there and saved and
-- the uid was new; the message of the answer copies the draft under that uid, and is now the last
-- row of the table; and the log ends with the committed attempt.
pub acknowledged-IsDurable :
    (app : App) (t : ℕ) (fresh : String) (supplied : Option String) (k : ℕ) (given : Option String)
    (m : Message) (db : Db)
    → IsValid db
    → (handle app t fresh supplied (send_in k given) db).0 ≡ json 200 (send_json (sent m))
    → IsDurable t
        (chosen_uid fresh given)
        k
        m
        db
        (handle app t fresh supplied (send_in k given) db).1
unfolding handle route
acknowledged-IsDurable app t fresh supplied k given m db v h =
    admitted (require_visible_control app supplied) h
  where
    answer : Response × Db
    answer =
        (sent_response (send_message t fresh k given db).0, (send_message t fresh k given db).1)

    admitted :
        (c : Check)
        → (admit c answer db).0 ≡ json 200 (send_json (sent m))
        → IsDurable t (chosen_uid fresh given) k m db (admit c answer db).1
    admitted accepted e =
        let same = send_message-eq-transact t fresh k given db v in
        rw same (
          transact-IsDurable t (chosen_uid fresh given) k m (find_row draft_key k db.drafts) db refl
            (rw same at e))
    admitted refused e = absurd (unfold send_json in true-ne-false (sym (ap is_confirmed e)))
    admitted crashed e = absurd (unfold send_json in true-ne-false (sym (ap is_confirmed e)))
