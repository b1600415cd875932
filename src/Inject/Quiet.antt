-- ===== src/Inject/Quiet.antt =====
-- What a report of inject.py tells once the proxy is quiet.
use browserbench.Prelude.{ℕ, suc, ◌+◌, ◌≡◌, Bool, ◌&&◌, leb, length}
use browserbench.Inject.State.{Proxy}
use browserbench.Inject.Receipts.{Summary, Report}
use browserbench.Inject.Drops.{due}

abbrev pub sum_of : Summary → ℕ
sum_of s = s.none_count + s.forwarded_count + s.disconnected_count + s.dropped_count

-- A report that leaves nothing out: a receipt for each counted request and each counted attempt, a
-- treatment for each attempt, and `treatment_delivered` exactly where a connection was to be
-- dropped and its commit was counted.
pub record IsComplete (inject : Bool) (n : ℕ) (p : Proxy) (r : Report) : Type 0 where
  pub all_requests : suc (length r.requests) ≡ p.next_request_sequence
  pub all_attempts : suc (length r.attempts) ≡ p.next_sequence
  pub all_treated : sum_of r.treatment_summary ≡ length r.attempts
  pub delivered : r.treatment_delivered ≡ (inject && leb n p.committed_count)
  pub once : r.treatment_summary.dropped_count ≡ due inject n p.committed_count
