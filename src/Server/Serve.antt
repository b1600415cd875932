-- ===== src/Server/Serve.antt =====
-- Requests of server.py, served in order, over a database that its start-up has set.
use browserbench.Prelude.{
  ℕ, String, ◌≡◌, refl, inl, inr, Option, none, some, List, [], ◌∷◌, Bool-cases,
}
use browserbench.Db.{init_db, create_draft, Draft, Db, Result, ok, raise}
use browserbench.Db.Invariant.{IsValid}
use browserbench.Db.Keeps.{create_draft-IsValid, save_draft-IsValid, init_db-IsValid}
use browserbench.Db.Committed.{send_message-IsValid}
use browserbench.Server.Routes.{
  lifespan, require_visible_control, created_response, route, is_guarded, admit, handle, App,
  Request, health, index, list_drafts, list_messages, create_draft_in, save_draft_in, send_in,
  Response, Check, accepted, refused, crashed,
}

created_response-db : (r : Result (Option Draft)) (db : Db) → (created_response (r, db)).1 ≡ db
created_response-db (ok none) db = refl
created_response-db (ok (some d)) db = refl
created_response-db (raise e) db = refl

route-IsValid :
    (app : App) (t : ℕ) (fresh : String) (r : Request) (db : Db)
    → IsValid db
    → IsValid (route app t fresh r db).1
unfolding route
route-IsValid app t fresh health db v = v
route-IsValid app t fresh index db v = v
route-IsValid app t fresh list_drafts db v = v
route-IsValid app t fresh list_messages db v = v
route-IsValid app t fresh (create_draft_in subject body) db v =
    rw
      (created_response-db (create_draft t 1 subject body "new" db).0
        (create_draft t 1 subject body "new" db).1)
      (create_draft-IsValid t 1 subject body "new" db v)
route-IsValid app t fresh (save_draft_in k) db v = save_draft-IsValid t k db v
route-IsValid app t fresh (send_in k uid) db v = send_message-IsValid t fresh k uid db v

admit-keeps {κ} :
    (P : Db → Type κ) (c : Check) (answer : Response × Db) (db : Db)
    → P db
    → P answer.1
    → P (admit c answer db).1
admit-keeps P accepted answer db p q = q
admit-keeps P refused answer db p q = p
admit-keeps P crashed answer db p q = p

pub handle-IsValid :
    (app : App) (t : ℕ) (fresh : String) (supplied : Option String) (r : Request) (db : Db)
    → IsValid db
    → IsValid (handle app t fresh supplied r db).1
unfolding handle
handle-IsValid app t fresh supplied r db v = elim (Bool-cases (is_guarded r)) [
  | inl g ↦ rw g (
      admit-keeps IsValid (require_visible_control app supplied) (route app t fresh r db) db v
        (route-IsValid app t fresh r db v))
  | inr g ↦ rw g (route-IsValid app t fresh r db v)
]

pub record Arrival : Type 0 where
  pub at : ℕ
  pub fresh : String
  pub supplied : Option String
  pub request : Request

unfoldable pub serve : App → List Arrival → Db → Db
serve app [] db = db
serve app (a ∷ more) db = serve app more (handle app a.at a.fresh a.supplied a.request db).1

serve-keeps :
    (app : App) (arrivals : List Arrival) (db : Db) → IsValid db → IsValid (serve app arrivals db)
unfolding serve
serve-keeps app [] db v = v
serve-keeps app (a ∷ more) db v =
    serve-keeps app more (handle app a.at a.fresh a.supplied a.request db).1
      (handle-IsValid app a.at a.fresh a.supplied a.request db v)

-- A fixture that starts over a valid database, or over the bare schema, has a valid database after
-- any requests, whatever their tokens and answers.
pub serve-IsValid :
    (app : App) (arrivals : List Arrival) (db : Db)
    → IsValid db
    → IsValid (serve app arrivals (lifespan db))
unfolding lifespan
serve-IsValid app arrivals db v =
    serve-keeps app arrivals (init_db (some "alice") db) (init_db-IsValid (some "alice") db v)
