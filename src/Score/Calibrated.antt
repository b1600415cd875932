-- ===== src/Score/Calibrated.antt =====
-- Reconciliation and calibration of score.py.
use browserbench.Prelude.{◌≡◌, ◌≢◌, ◌⊎◌}
use browserbench.Claim.{Belief, sent, not_sent, unknown}
use browserbench.Score.Tables.{EffectState, zero_effects, exactly_one}
use browserbench.Score.Reconcile.{Reconciliation, observed}

abbrev pub Knows : Belief → EffectState → Reconciliation → Type 0
Knows b e r =
    (r ≡ observed) × (b ≡ sent) × (e ≡ exactly_one)
    ⊎ ((r ≡ observed) × (b ≡ not_sent) × (e ≡ zero_effects) ⊎ (r ≢ observed) × (b ≡ unknown))
