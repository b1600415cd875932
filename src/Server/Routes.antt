-- ===== src/Server/Routes.antt =====
-- The routes of `create_app` in server.py. FastAPI and pydantic decide which route a request takes
-- and bind its fields: a request arrives here bound. An exception that no handler maps is answered
-- with the status 500.
use browserbench.Prelude.{
  ℕ, zero, suc, ◌/◌, ◌%◌, String, Bool, true, false, ◌&&◌, Option, none, some, List, [], ◌∷◌, map,
  str_eq, ltb, if◌then◌else◌,
}
use Prim.Native.Nat.{◌/◌, ◌%◌}
use Prim.Native.String.{slice, ◌++◌}
use Prim.Native.Char.{code}
use browserbench.Json.{
  pos, null, bool, int, real, str, Value, scalar, obj, arr, field, end, Items, cons, nil,
}
use browserbench.Db.{
  init_db, create_draft, save_draft, send_message, SendReply, sent, duplicate, messages, get_drafts,
  Draft, Message, Db, draft_not_found, draft_not_saved, Result,
}

abbrev number : ℕ → Value
number n = scalar (int (pos n))

abbrev text : String → Value
text s = scalar (str s)

-- A column of floats.
abbrev time : ℕ → Value
time t = scalar (real (pos t))

-- The rows, as `dict(row)` gives them.
unfoldable pub draft_json : Draft → Value
draft_json d = obj (
    field "id" (number d.id) (
      field "user_id" (number d.user_id) (
        field "subject" (text d.subject) (
          field "body" (text d.body) (
            field "status" (text d.status) (
              field "created_at" (time d.created_at)
                (field "updated_at" (time d.updated_at) end)))))))

unfoldable pub message_json : Message → Value
message_json m = obj (
    field "id" (number m.id) (
      field "user_id" (number m.user_id) (
        field "draft_id" (number m.draft_id) (
          field "subject" (text m.subject) (
            field "body" (text m.body)
              (field "send_uid" (text m.send_uid) (field "sent_at" (time m.sent_at) end)))))))

-- The dict that `send_message` returns.
unfoldable pub send_json : SendReply → Value
unfolding message_json
send_json (sent m) = obj (
    field "committed" (scalar (bool true))
      (field "duplicate_rejected" (scalar (bool false)) (field "message" (message_json m) end)))
send_json (duplicate uid) = obj (
    field "committed" (scalar (bool false))
      (field "duplicate_rejected" (scalar (bool true)) (field "send_uid" (text uid) end)))

abbrev items : List Value → Items
items [] = nil
items (v ∷ vs) = cons v (items vs)

abbrev digit : ℕ → String
digit n = slice "0123456789" n (suc n)

-- The decimal numeral of `n`, with more rounds than it has digits.
unfoldable pub decimal_digits : (rounds n : ℕ) → String
decimal_digits zero n = ""
decimal_digits (suc r) n =
    let before = decimal_digits r (n / 10) in if ltb n 10 then digit n else before ++ digit (n % 10)

unfoldable pub decimal : ℕ → String
unfolding decimal_digits
decimal n = decimal_digits (suc n) n

abbrev pub or_empty : Option String → String
or_empty none = ""
or_empty (some s) = s

abbrev pub or_fresh : String → Option String → String
or_fresh fresh none = fresh
or_fresh fresh (some s) = if str_eq s "" then fresh else s

-- What `create_app` closes over.
pub record App : Type 0 where
  pub database_path : String
  pub run_id : Option String
  pub ui_token : String

-- `create_app` up to the routes: `fresh` is what `secrets.token_urlsafe` answers, `resolve` the
-- canonical path. `none` is the ValueError of an empty token.
unfoldable pub create_app :
    (resolve : String → String) (fresh : String) (database_path : String)
    (run_id ui_token : Option String)
    → Option App
create_app resolve fresh path run_id ui_token =
    let token = or_fresh fresh ui_token in
    if str_eq token ""
    then none
    else some (record { database_path = resolve path; run_id = run_id; ui_token = token })

-- The lifespan of the application, before it is ready.
unfoldable pub lifespan : Db → Db
lifespan db = init_db (some "alice") db

pub data Request : Type 0 where
  health index list_drafts list_messages : Request
  create_draft_in : (subject body : String) → Request
  save_draft_in : (draft_id : ℕ) → Request
  send_in : (draft_id : ℕ) (send_uid : Option String) → Request

-- A status, and the JSON that is sent with it; the page is not JSON.
pub data Response : Type 0 where
  json : (status : ℕ) → Value → Response
  page : (token : String) → Response
  server_error : Response

abbrev pub status_of : Response → ℕ
status_of (json n v) = n
status_of (page token) = 200
status_of server_error = 500

abbrev pub http_error : ℕ → String → Response
http_error status detail = json status (obj (field "detail" (text detail) end))

abbrev pub is_ascii : String → Bool
is_ascii String.[] = true
is_ascii (String.◌∷◌ c s) = ltb (code c) 128 && is_ascii s

pub data Check : Type 0 where
  accepted refused crashed : Check

-- `secrets.compare_digest`, which raises TypeError on a text that is not ASCII.
unfoldable pub require_visible_control : App → Option String → Check
require_visible_control app supplied =
    let token = or_empty supplied in
    if is_ascii token && is_ascii app.ui_token
    then (if str_eq token app.ui_token then accepted else refused)
    else crashed

abbrev pub created_response : Result (Option Draft) × Db → Response × Db
created_response (Result.ok (some d), db) = (json 200 (draft_json d), db)
created_response (Result.ok none, db) = (server_error, db)
created_response (Result.raise e, db) = (server_error, db)

abbrev pub saved_response : Result Draft → Response
saved_response (Result.ok d) = json 200 (draft_json d)
saved_response (Result.raise (draft_not_found k)) = http_error 404 "draft not found"
saved_response (Result.raise e) = server_error

abbrev pub sent_response : Result SendReply → Response
sent_response (Result.ok r) = json 200 (send_json r)
sent_response (Result.raise (draft_not_found k)) = http_error 404 "draft not found"
sent_response (Result.raise (draft_not_saved k status)) =
    http_error 409 ("draft " ++ decimal k ++ " must be saved before sending")
sent_response (Result.raise e) = server_error

-- The route of a request that may pass; `t` and `fresh` are what the clock and `uuid4` answer.
unfoldable pub route : App → (t : ℕ) (fresh : String) → Request → Db → Response × Db
route app t fresh health db = (
  json 200 (
      obj (
        field "ok" (scalar (bool true)) (
          field "db" (text app.database_path)
            (field "run_id" (elim app.run_id [ none ↦ scalar null | some s ↦ text s ]) end)))),
  db,
)
route app t fresh index db = (page app.ui_token, db)
route app t fresh list_drafts db = (json 200 (arr (items (map draft_json (get_drafts db)))), db)
route app t fresh list_messages db = (json 200 (arr (items (map message_json (messages db)))), db)
route app t fresh (create_draft_in subject body) db =
    created_response (create_draft t 1 subject body "new" db)
route app t fresh (save_draft_in k) db =
    (saved_response (save_draft t k db).0, (save_draft t k db).1)
route app t fresh (send_in k uid) db =
    (sent_response (send_message t fresh k uid db).0, (send_message t fresh k uid db).1)

-- The routes with `Depends(require_visible_control)`.
abbrev pub is_guarded : Request → Bool
is_guarded health = false
is_guarded index = false
is_guarded _ = true

abbrev pub admit : Check → Response × Db → Db → Response × Db
admit accepted answer db = answer
admit refused answer db =
    (http_error 403 "fixture API is available only through visible page controls", db)
admit crashed answer db = (server_error, db)

-- One request, with the header `X-BTB-UI-Token`.
unfoldable pub handle :
    App → (t : ℕ) (fresh : String) → Option String → Request → Db → Response × Db
unfolding route require_visible_control
handle app t fresh supplied r db =
    if is_guarded r
    then admit (require_visible_control app supplied) (route app t fresh r db) db
    else route app t fresh r db
