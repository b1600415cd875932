-- ===== src/Fixture.antt =====
-- The proxy of btb/harness/inject.py before the fixture of btb/app/server.py: what the upstream
-- answer proves of the database.
use mathlib.Core.Path.{subst}
use browserbench.Prelude.{ℕ, String, ◌≡◌, refl, sym, ap, ◌∙◌, false, Option, some, arith, str_eq}
use browserbench.Json.{pos, null, Value, scalar}
use browserbench.Db.{
  chosen_uid, send_message, SendReply, sent, duplicate, Message, Db, draft_not_found,
  draft_not_saved, constraint_check, constraint_foreign_key, constraint_primary_key,
  constraint_unique, assertion, Result, ok, raise,
}
use browserbench.Db.Invariant.{IsValid}
use browserbench.Server.{
  send_json, status_of, require_visible_control, sent_response, route, admit, handle, App, send_in,
  Response, json, page, server_error, Check, accepted, refused, crashed,
}
use browserbench.Server.Atomic.{acknowledged-IsDurable, IsDurable}
use browserbench.Inject.{
  Bytes, BytesDecoder, as_object, parse_json_object, committed_identity, states, classify,
  forward_result, UpstreamResult, numbered, Classification, committed, rejected, responded,
  accepted,
}

-- The class that `_forward` gives an answer of the fixture whose body it decodes.
abbrev class_of : Response → Classification
class_of (json n v) = classify n (as_object (some v))
class_of (page token) = rejected
class_of server_error = rejected

class_of-sent_response :
    (r : Result SendReply)
    → class_of (sent_response r) ≡ committed
    → (m : Message) × (sent_response r ≡ json 200 (send_json (sent m)))
unfolding classify states committed_identity send_json
class_of-sent_response (ok (sent m)) h = (m, refl)
class_of-sent_response (ok (duplicate uid)) h = cc
class_of-sent_response (raise (draft_not_found k)) h = cc
class_of-sent_response (raise (draft_not_saved k s)) h = cc
class_of-sent_response (raise constraint_check) h = cc
class_of-sent_response (raise constraint_foreign_key) h = cc
class_of-sent_response (raise constraint_primary_key) h = cc
class_of-sent_response (raise constraint_unique) h = cc
class_of-sent_response (raise assertion) h = cc

class_of-handle :
    (app : App) (t : ℕ) (fresh : String) (supplied : Option String) (k : ℕ) (given : Option String)
    (db : Db)
    → class_of (handle app t fresh supplied (send_in k given) db).0 ≡ committed
    → (m : Message) × ((handle app t fresh supplied (send_in k given) db).0
        ≡ json 200 (send_json (sent m)))
unfolding handle route classify states committed_identity
class_of-handle app t fresh supplied k given db h =
    admitted (require_visible_control app supplied) h
  where
    answer : Response × Db
    answer =
        (sent_response (send_message t fresh k given db).0, (send_message t fresh k given db).1)

    admitted :
        (c : Check)
        → class_of (admit c answer db).0 ≡ committed
        → (m : Message) × ((admit c answer db).0 ≡ json 200 (send_json (sent m)))
    admitted accepted e = class_of-sent_response (send_message t fresh k given db).0 e
    admitted refused e = cc
    admitted crashed e = cc

abbrev payload_of : Response → Value
payload_of (json n v) = v
payload_of _ = scalar null

classification-class_of :
    (loads : BytesDecoder) (encode : String → Bytes) (now status : ℕ) (body : Bytes)
    (kind : Option String) (v : Value)
    → loads body ≡ some v
    → (forward_result loads encode now (responded status body kind)).classification
      ≡ class_of (json status v)
unfolding forward_result parse_json_object
classification-class_of loads encode now status body kind v read =
    ap (λ o. classify status (as_object o)) read

-- What a receipt keeps of the identity in a confirmed send.
identity-sent :
    (loads : BytesDecoder) (encode : String → Bytes) (now : ℕ) (body : Bytes) (kind : Option String)
    (m : Message)
    → loads body ≡ some (send_json (sent m))
    → str_eq m.send_uid "" ≡ false
    → let r = forward_result loads encode now (responded 200 body kind) in
      (r.classification ≡ committed)
      × (r.committed_message_id ≡ some (numbered (pos m.id)))
      × (r.committed_send_uid ≡ some m.send_uid)
unfolding forward_result parse_json_object classify states committed_identity send_json
identity-sent loads encode now body kind m read filled = rw read (ground (arith, filled))

uid_filled :
    (m : Message)
    → class_of (json 200 (send_json (sent m))) ≡ committed
    → str_eq m.send_uid "" ≡ false
unfolding classify states committed_identity send_json
uid_filled m h = ground arith

-- What the proxy knows of a verified commit.
pub record IsProved (t : ℕ) (uid : String) (k : ℕ) (db db' : Db) (r : UpstreamResult) : Type 0 where
  pub message : Message
  pub durable : IsDurable t uid k message db db'
  pub numbered_by : r.committed_message_id ≡ some (numbered (pos message.id))
  pub named_by : r.committed_send_uid ≡ some message.send_uid

-- A send that the proxy classifies as committed, from the body that the fixture answers, is durable:
-- before any connection is dropped for it, its message is in the table and its attempt in the log,
-- and the receipt has the key and the uid of that very row.
pub committed-IsProved :
    (loads : BytesDecoder) (encode : String → Bytes) (now status : ℕ) (body : Bytes)
    (kind : Option String) (v : Value) (app : App) (t : ℕ) (fresh : String)
    (supplied : Option String) (k : ℕ) (given : Option String) (db : Db)
    → IsValid db
    → (handle app t fresh supplied (send_in k given) db).0 ≡ json status v
    → loads body ≡ some v
    → (forward_result loads encode now (responded status body kind)).classification ≡ committed
    → IsProved t
        (chosen_uid fresh given)
        k
        db
        (handle app t fresh supplied (send_in k given) db).1
        (forward_result loads encode now (responded status body kind))
committed-IsProved loads encode now status body kind v app t fresh supplied k given db valid says
      read class =
    let known = sym (classification-class_of loads encode now status body kind v read) ∙ class in
    let (m, same) = class_of-handle app t fresh supplied k given db (ap class_of says ∙ known) in
    let both : json status v ≡ json 200 (send_json (sent m)) = sym says ∙ same in
    let answer = λ (s : ℕ). forward_result loads encode now (responded s body kind) in
    let at_200 : 200 ≡ status = sym (ap status_of both) in
    let payload = ap (payload_of) both in
    let filled = uid_filled m (ap class_of (sym both) ∙ known) in
    let (c, id, uid) = identity-sent loads encode now body kind m (read ∙ ap some payload) filled in
    record {
      message = m;
      durable = acknowledged-IsDurable app t fresh supplied k given m db valid same;
      numbered_by =
          subst (λ s. (answer s).committed_message_id ≡ some (numbered (pos m.id))) at_200 id;
      named_by = subst (λ s. (answer s).committed_send_uid ≡ some m.send_uid) at_200 uid;
    }

-- The fixture's confirmation of a send under a uid that is not empty is classified as committed.
pub confirmed-classified :
    (loads : BytesDecoder) (encode : String → Bytes) (now : ℕ) (body : Bytes) (kind : Option String)
    (m : Message)
    → loads body ≡ some (send_json (sent m))
    → str_eq m.send_uid "" ≡ false
    → (forward_result loads encode now (responded 200 body kind)).classification ≡ committed
confirmed-classified loads encode now body kind m read filled =
    (identity-sent loads encode now body kind m read filled).0
