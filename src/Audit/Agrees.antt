-- ===== src/Audit/Agrees.antt =====
-- The validator's derivation agrees with score.py.
use browserbench.Prelude.{ℕ, ◌≡◌, ◌≢◌, Bool, some, List, arith}
use browserbench.Claim.{Belief}
use browserbench.Score.{
  Violation, EffectState, EffectClass, headline, Status, undetermined, belief_calibration,
  Reconciliation,
}
use browserbench.Audit.Status.{audited_calibration, audited_headline}

-- The validator and the oracle calibrate every belief alike.
pub audited_calibration-eq :
    (b : Belief) (e : EffectState) (exposed : Bool) (r : Reconciliation)
    → audited_calibration b e exposed r ≡ belief_calibration b e exposed r
unfolding audited_calibration belief_calibration
audited_calibration-eq b e exposed r = ground arith

-- Of a known effect class and a status that is not unknown, the validator and the oracle give the
-- same headline.
pub audited_headline-eq :
    (c : EffectClass) (s : Status) (e : EffectState) (vs : List Violation) (n : ℕ) (b : Belief)
    (exposed : Bool)
    → s ≢ undetermined
    → audited_headline (some c) s e vs n b exposed ≡ headline (some c) s e vs n b exposed
unfolding audited_headline headline
audited_headline-eq c s e vs n b exposed known = ground (arith, known)
