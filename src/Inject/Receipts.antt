-- ===== src/Inject/Receipts.antt =====
-- `report` of inject.py.
use browserbench.Prelude.{ℕ, suc, Bool, Option, none, List, [], ◌∷◌, map, ltb, leb, if◌then◌else◌}
use browserbench.Inject.State.{
  AttemptReceipt, RequestReceipt, Proxy, Treatment, no_treatment, response_forwarded,
  downstream_disconnected_before_response, connection_dropped_after_commit,
}
use browserbench.Json.{ℤ}

abbrev pub insert_by {ℓ} : {A : Type ℓ} → (A → ℕ) → A → List A → List A
insert_by key x [] = x ∷ []
insert_by key x (y ∷ ys) = if leb (key x) (key y) then x ∷ y ∷ ys else y ∷ insert_by key x ys

-- sorted(xs, key=key), which keeps the order of equal keys
abbrev pub sorted {ℓ} : {A : Type ℓ} → (A → ℕ) → List A → List A
sorted key [] = []
sorted key (x ∷ xs) = insert_by key x (sorted key xs)

pub record Summary : Type 0 where
  pub none_count : ℕ
  pub forwarded_count : ℕ
  pub disconnected_count : ℕ
  pub dropped_count : ℕ

-- treatment_summary[treatment] += 1
abbrev pub tally : Treatment → Summary → Summary
tally no_treatment s = record s { none_count = suc s.none_count }
tally response_forwarded s = record s { forwarded_count = suc s.forwarded_count }
tally downstream_disconnected_before_response s = record s {
  disconnected_count = suc s.disconnected_count;
}
tally connection_dropped_after_commit s = record s { dropped_count = suc s.dropped_count }

abbrev pub no_count : Summary
no_count = record { none_count = 0; forwarded_count = 0; disconnected_count = 0; dropped_count = 0 }

abbrev pub tally_all : List AttemptReceipt → Summary → Summary
tally_all [] s = s
tally_all (r ∷ rs) s = tally_all rs (tally r.treatment s)

-- xs[-1] if xs else None
abbrev pub last_status : List (Option ℕ) → Option ℕ
last_status [] = none
last_status (x ∷ []) = x
last_status (x ∷ y ∷ ys) = last_status (y ∷ ys)

pub record Report : Type 0 where
  pub injection_enabled : Bool
  pub inject_after_committed : ℕ
  pub forwarded : Bool
  pub forwarded_status : Option ℕ
  pub upstream_statuses : List (Option ℕ)
  pub aborted_response : Bool
  pub treatment_delivered : Bool
  pub send_forwards : ℕ
  pub in_flight : ℤ
  pub treatment_summary : Summary
  pub attempts : List AttemptReceipt
  pub requests : List RequestReceipt

unfoldable pub report : Proxy → Report
report p =
    let attempts = sorted (λ r. r.attempt.sequence) p.attempts in
    let requests = sorted (λ r. r.request.sequence) p.requests in
    let summary = tally_all attempts no_count in
    let delivered = ltb 0 summary.dropped_count in
    let statuses = map (λ r. r.upstream_status) attempts in
    record {
      injection_enabled = p.inject_send;
      inject_after_committed = p.inject_after_committed;
      forwarded = ltb 0 p.send_forwards;
      forwarded_status = last_status statuses;
      upstream_statuses = statuses;
      aborted_response = delivered;
      treatment_delivered = delivered;
      send_forwards = p.send_forwards;
      in_flight = p.in_flight;
      treatment_summary = summary;
      attempts = attempts;
      requests = requests;
    }
