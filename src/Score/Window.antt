-- ===== src/Score/Window.antt =====
-- What `_reconciliation_status` of score.py takes for an observation.
use browserbench.Prelude.{◌≡◌, true, false, Option, none, some, List, map, arith, All}
use mathlib.Core.List.{Memᴰ}
use browserbench.Json.{ℤ, Value, obj, arr, Fields, Items}
use browserbench.Score.Reconcile.{
  ℤ_lt, part, dropped_sequence, max_of, sequence_after, has_success, report_fields,
}

-- Of the numbers that are there, none is below.
abbrev pub NotBelow : ℤ → Option ℤ → Type 0
NotBelow m none = Unit
NotBelow m (some k) = ℤ_lt k m ≡ false

abbrev IsNone : Option ℤ → Type 0
IsNone none = Unit
IsNone (some k) = ⊥

ℤ_lt-trans_not : (a b c : ℤ) → ℤ_lt a b ≡ false → ℤ_lt c b ≡ true → ℤ_lt a c ≡ false
unfolding ℤ_lt
ℤ_lt-trans_not a b c h k = ground arith

-- A look at the list of messages that came behind the dropped response and succeeded, with no send
-- of a message between the two.
pub record IsObserved (attempts requests : List Value) : Type 0 where
  pub start : ℤ
  pub dropped : max_of (map dropped_sequence attempts) ≡ some start
  pub request : Value
  pub listed : Memᴰ request requests
  pub sequence : ℤ
  pub looked : sequence_after start "GET" "/api/messages" request ≡ some sequence
  pub succeeded : has_success request ≡ true
  pub no_send_between :
      All (NotBelow sequence) (map (sequence_after start "POST" "/api/messages/send") requests)

-- The lists of an injection report.
pub record HasLists (report : Option Fields) (attempts requests : Items) : Type 0 where
  pub attempts_are : part (obj (report_fields report)) "attempts" ≡ arr attempts
  pub requests_are : part (obj (report_fields report)) "requests" ≡ arr requests
