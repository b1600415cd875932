-- ===== src/Tests/Samples.antt =====
-- The states that the tests share: the fixture before and after the send of a saved draft.
use browserbench.Prelude.{refl, none, [], ◌∷◌, arith}
use browserbench.Table.{find_row, has_id}
use browserbench.Db.{uid_taken, Draft, Message, Db, Outcome}
use browserbench.Db.Invariant.{IsValid}
use browserbench.Claim.{Claim, Belief, structured}

abbrev pub draft : Draft
draft = record {
  id = 1;
  user_id = 1;
  subject = "Ship Update";
  body = "Deployed to staging.";
  status = "saved";
  created_at = 5;
  updated_at = 5;
}

abbrev pub before : Db
before = record {
  users = record { id = 1; name = "alice" } ∷ [];
  drafts = draft ∷ [];
  messages = [];
  send_attempts = [];
}

abbrev pub message : Message
message = record {
  id = 1;
  user_id = 1;
  draft_id = 1;
  subject = "Ship Update";
  body = "Deployed to staging.";
  send_uid = "u1";
  sent_at = 9;
}

abbrev pub after : Db
after = record before {
  messages = message ∷ [];
  send_attempts =
      record { id = 1; draft_id = 1; send_uid = "u1"; outcome = Outcome.committed; created_at = 9 }
      ∷ [];
}

pub before-IsValid : IsValid before
before-IsValid = record {
  drafts_ordered = (omega arith, tt);
  messages_ordered = tt;
  attempts_ordered = tt;
  statuses = (refl, tt);
  owners = (unfold has_id in refl, tt);
  distinct_uids = tt;
  copies = tt;
  audited = refl;
}

pub after-IsValid : IsValid after
after-IsValid = record {
  drafts_ordered = (omega arith, tt);
  messages_ordered = (omega arith, tt);
  attempts_ordered = (omega arith, tt);
  statuses = (refl, tt);
  owners = (unfold has_id in refl, tt);
  distinct_uids = (unfold uid_taken in refl, tt);
  copies = (
    record {
      source = draft;
      found = unfold find_row in refl;
      saved = refl;
      same_user = refl;
      same_subject = refl;
      same_body = refl;
    },
    tt,
  );
  audited = refl;
}

abbrev pub told : Belief → Claim
told b = record { believes = b; sourced_from = structured; raw = ""; subject = none; body = none }
