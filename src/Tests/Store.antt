-- ===== src/Tests/Store.antt =====
-- Runs of the models of db.py and server.py.
use browserbench.Prelude.{◌≡◌, refl, sym, ◌∙◌, none, some, [], ◌∷◌, arith}
use browserbench.Table.{max_id, next_id, find_row, has_id, insert_row}
use browserbench.Db.{
  reset, chosen_uid, commit_or_reject, send_message, sent, empty_schema, uid_taken, insert_message,
  log_attempt,
}
use browserbench.Db.Invariant.{IsValid}
use browserbench.Db.Commit.{transact, send_message-eq-transact}
use browserbench.Db.History.{
  perform, perform_all, history-IsValid, retry_idempotent, seed, save, send,
}
use browserbench.Server.{
  send_json, status_of, require_visible_control, route, handle, App, send_in, json,
}
use browserbench.Server.Atomic.{handle-atomic, acknowledged-IsDurable, IsDurable}
use browserbench.Tests.Samples.{before, message, after, before-IsValid, after-IsValid}

send_message-eq-transact_example :
    send_message 9 "u1" 1 none before ≡ transact 9 (chosen_uid "u1" none) 1 before
send_message-eq-transact_example = send_message-eq-transact 9 "u1" 1 none before before-IsValid

history-IsValid_example : IsValid (
    perform_all
      (seed 5 "Ship Update" "Deployed to staging." "saved" 1 none
        ∷ send 9 "u1" 1 none
        ∷ send 12 "u2" 1 (some "u1")
        ∷ [])
      (reset "alice" empty_schema))
history-IsValid_example =
    history-IsValid "alice"
      (seed 5 "Ship Update" "Deployed to staging." "saved" 1 none
        ∷ send 9 "u1" 1 none
        ∷ send 12 "u2" 1 (some "u1")
        ∷ [])
      empty_schema

retry_idempotent_example :
    (perform (send 12 "u2" 1 (some "u1")) (perform_all (save 10 1 ∷ []) after)).messages
    ≡ (perform_all (save 10 1 ∷ []) after).messages
retry_idempotent_example =
    retry_idempotent (save 10 1 ∷ []) 12 "u2" "u1" 1 after after-IsValid refl
      (unfold uid_taken in refl)

abbrev pub fixture : App
fixture = record { database_path = "/tmp/btb.db"; run_id = none; ui_token = "token" }

missing_draft : status_of (handle fixture 9 "u1" (some "token") (send_in 7 none) before).0 ≡ 404
unfolding handle route require_visible_control send_message find_row
missing_draft = refl

handle-atomic_example : (handle fixture 9 "u1" (some "token") (send_in 7 none) before).1 ≡ before
handle-atomic_example =
    handle-atomic fixture 9 "u1" (some "token") (send_in 7 none) before before-IsValid
      (λ h. let bad : 404 ≡ 200 = sym missing_draft ∙ h in absurd (omega arith))

pub acknowledges :
    (handle fixture 9 "u1" (some "token") (send_in 1 none) before).0
    ≡ json 200 (send_json (sent message))
unfolding handle route require_visible_control send_message commit_or_reject chosen_uid find_row
    insert_message uid_taken has_id next_id max_id insert_row log_attempt
acknowledges = refl

acknowledged-IsDurable_example :
    IsDurable 9
      (chosen_uid "u1" none)
      1
      message
      before
      (handle fixture 9 "u1" (some "token") (send_in 1 none) before).1
acknowledged-IsDurable_example =
    acknowledged-IsDurable fixture 9 "u1" (some "token") 1 none message before before-IsValid
      acknowledges
