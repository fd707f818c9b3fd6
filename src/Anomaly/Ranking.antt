-- ===== src/Anomaly/Ranking.antt =====
-- The thresholds and the severities.
use safe4_arc_demo.Prelude.{ℕ, ◌≤◌, ◌<◌, ◌≡◌, Bool, true, false, arith}
use safe4_arc_demo.Anomaly.{
  Severity, high, Threshold, disabled, at_least, Posture, trusted_workload, Score, amount_ready,
  base_severity, raise_for_posture, at_least_score, anomaly_severity_rank,
  anomaly_severity_meets_threshold, deny_threshold, Inputs, total_score,
  compute_infrastructure_identity_anomaly,
}

-- Whatever is configured, if asking a person is enabled then each severity that is denied ranks
-- above the severity from which a person is asked.
pub deny_threshold-stricter :
    (severity : Severity) (asks : Severity) (raw : Threshold)
    → anomaly_severity_meets_threshold severity (deny_threshold (at_least asks) raw) ≡ true
    → anomaly_severity_rank asks < anomaly_severity_rank severity
unfolding deny_threshold anomaly_severity_meets_threshold
deny_threshold-stricter severity asks disabled h = ground arith
deny_threshold-stricter severity asks (at_least t) h = ground arith

abbrev pub severity_of : Posture → ℕ → Inputs → Severity
severity_of p observed i = (compute_infrastructure_identity_anomaly p observed i).severity

abbrev pub is_high : Severity → Bool
is_high high = true
is_high _ = false

is_high-raised :
    (p : Posture) (ready : Bool) (s : Score)
    → is_high (raise_for_posture p (base_severity ready s)) ≡ at_least_score 2 s
unfolding raise_for_posture base_severity
is_high-raised p ready s = ground arith

raised-ge :
    (p : Posture) (s : Severity)
    → anomaly_severity_rank s ≤ anomaly_severity_rank (raise_for_posture p s)
unfolding raise_for_posture
raised-ge p s = ground arith

raised-trusted : (s : Severity) → raise_for_posture trusted_workload s ≡ s
unfolding raise_for_posture
raised-trusted s = ground arith

-- In every posture a payment is of high severity exactly if its total score is two or more, and no
-- posture gives it a lower severity than that of a trusted workload.
pub severity_by_posture :
    (p : Posture) (observed : ℕ) (i : Inputs)
    → (is_high (severity_of p observed i) ≡ at_least_score 2 (total_score observed i))
      × (anomaly_severity_rank (severity_of trusted_workload observed i)
          ≤ anomaly_severity_rank (severity_of p observed i))
unfolding compute_infrastructure_identity_anomaly
severity_by_posture p observed i =
    let ready = amount_ready i.baseline_profile in
    (
      is_high-raised p ready (total_score observed i),
      rw (raised-trusted (base_severity ready (total_score observed i)))
          (raised-ge p (base_severity ready (total_score observed i))),
    )
