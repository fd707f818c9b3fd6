-- ===== src/Anomaly.antt =====
-- app/ops/anomalies.py, the severity thresholds of app/main.py and the posture of app/auth.py. A
-- score is an exact fraction, where the code divides two decimals to 28 places.
pub mod Ranking
use safe4_arc_demo.Prelude.{
  ℕ, ◌+◌, ◌-◌, ◌*◌, Option, none, some, Bool, true, false, List, [], ◌∷◌, ◌++◌, ◌==◌, ltb, leb, not,
  max, if◌then◌else◌, ◌&&◌, ◌||◌, same?,
}

pub data Severity : Type 0 where
  informational low medium high : Severity

-- `INFRASTRUCTURE_IDENTITY_ANOMALY_SEVERITY_ORDER`
abbrev pub anomaly_severity_rank : Severity → ℕ
anomaly_severity_rank informational = 0
anomaly_severity_rank low = 1
anomaly_severity_rank medium = 2
anomaly_severity_rank high = 3

-- A configured threshold; `disabled` ranks below every severity.
pub data Threshold : Type 0 where
  disabled : Threshold
  at_least : Severity → Threshold

unfoldable pub anomaly_severity_meets_threshold : Severity → Threshold → Bool
anomaly_severity_meets_threshold severity disabled = false
anomaly_severity_meets_threshold severity (at_least t) =
    leb (anomaly_severity_rank t) (anomaly_severity_rank severity)

unfoldable pub anomaly_severity_is_stricter : Threshold → Threshold → Bool
anomaly_severity_is_stricter disabled baseline = false
anomaly_severity_is_stricter (at_least t) disabled = true
anomaly_severity_is_stricter (at_least t) (at_least b) =
    ltb (anomaly_severity_rank b) (anomaly_severity_rank t)

-- `get_runtime_infrastructure_identity_anomaly_deny_min_severity`, from the two configured values.
unfoldable pub deny_threshold : Threshold → Threshold → Threshold
unfolding anomaly_severity_is_stricter
deny_threshold hitl raw = if anomaly_severity_is_stricter raw hitl then raw else disabled

pub data Posture : Type 0 where
  disabled oauth_only trusted_workload untrusted_workload : Posture

pub data ReasonCode : Type 0 where
  oauth_only_posture untrusted_workload_posture insufficient_baseline amount_spike_high : ReasonCode
  amount_spike_medium new_currency first_time_vendor first_time_agent_user : ReasonCode

-- The columns of a profile that the scoring reads.
pub record Profile : Type 0 where
  pub event_count : ℕ
  pub total_amount : ℕ
  pub transaction_currency : Option ℕ

pub record Inputs : Type 0 where
  pub baseline_profile : Option Profile
  pub baseline_context_event_count : ℕ
  pub currency_history_count : ℕ
  pub vendor_history_count : ℕ
  pub agent_user_history_count : ℕ

abbrev first_profile : Option Profile → Profile → Option Profile
first_profile none p = some p
first_profile (some q) p = some q

-- One round of the loop of `build_infrastructure_identity_anomaly_inputs`.
abbrev count_profile : ℕ → Inputs → Profile → Inputs
count_profile currency i p =
    let counted = record i {
      baseline_context_event_count = i.baseline_context_event_count + p.event_count;
    } in
    if same? p.transaction_currency (some currency)
    then record counted {
      currency_history_count = i.currency_history_count + p.event_count;
      baseline_profile = first_profile i.baseline_profile p;
    }
    else counted

count_profiles : ℕ → Inputs → List Profile → Inputs
count_profiles currency i [] = i
count_profiles currency i (p ∷ ps) = count_profiles currency (count_profile currency i p) ps

-- From the profiles that the query selects and the two counts of the log.
unfoldable pub build_infrastructure_identity_anomaly_inputs : ℕ → List Profile → ℕ → ℕ → Inputs
unfolding count_profiles
build_infrastructure_identity_anomaly_inputs currency profiles vendor_count agent_user_count =
    count_profiles currency
      (record {
        baseline_profile = none;
        baseline_context_event_count = 0;
        currency_history_count = 0;
        vendor_history_count = vendor_count;
        agent_user_history_count = agent_user_count;
      })
      profiles

-- INFRASTRUCTURE_IDENTITY_ANOMALY_CONTEXT_MIN_EVENTS
abbrev pub context_min_events : ℕ
context_min_events = 3

-- A fraction of the unit score; the denominator is positive.
pub record Score : Type 0 where
  pub numerator : ℕ
  pub denominator : ℕ

abbrev distance : ℕ → ℕ → ℕ
distance a b = (a - b) + (b - a)

-- `abs(observed - average) / average`, for the average of `events` events that sum up to `total`.
unfoldable pub amount_score : ℕ → ℕ → ℕ → Score
amount_score observed events total =
    if ltb 0 total
    then record { numerator = distance (observed * events) total; denominator = total }
    else record { numerator = 0; denominator = 1 }

abbrev pub at_least_score : ℕ → Score → Bool
at_least_score n s = leb (n * s.denominator) s.numerator

-- A score and some hundredths.
abbrev pub add_hundredths : Score → ℕ → Score
add_hundredths s h = record {
  numerator = 100 * s.numerator + h * s.denominator;
  denominator = 100 * s.denominator;
}

abbrev amount_ready : Option Profile → Bool
amount_ready none = false
amount_ready (some p) = leb context_min_events p.event_count

unfoldable pub amount_part : ℕ → Option Profile → Score
unfolding amount_score
amount_part observed none = record { numerator = 0; denominator = 1 }
amount_part observed (some p) =
    if leb context_min_events p.event_count
    then amount_score observed (max 1 p.event_count) p.total_amount
    else record { numerator = 0; denominator = 1 }

-- The scores of a new currency, vendor and user, in hundredths.
unfoldable pub context_part : Inputs → ℕ
context_part i =
    if leb context_min_events i.baseline_context_event_count
    then (if i.currency_history_count == 0 then 75 else 0)
      + ((if i.vendor_history_count == 0 then 50 else 0)
          + (if i.agent_user_history_count == 0 then 50 else 0))
    else 0

unfoldable pub total_score : ℕ → Inputs → Score
total_score observed i = add_hundredths (amount_part observed i.baseline_profile) (context_part i)

unfoldable pub base_severity : Bool → Score → Severity
base_severity ready score =
    if at_least_score 2 score
    then high
    else if at_least_score 1 score
    then medium
    else if ready
    then low
    else if ltb 0 score.numerator
    then low
    else informational

unfoldable pub raise_for_posture : Posture → Severity → Severity
raise_for_posture oauth_only low = medium
raise_for_posture untrusted_workload low = medium
raise_for_posture _ s = s

unfoldable pub posture_codes : Posture → List ReasonCode
posture_codes oauth_only = oauth_only_posture ∷ []
posture_codes untrusted_workload = untrusted_workload_posture ∷ []
posture_codes _ = []

abbrev when : Bool → ReasonCode → List ReasonCode
when b c = if b then c ∷ [] else []

unfoldable pub amount_codes : Bool → Score → List ReasonCode
amount_codes ready s =
    if not ready
    then insufficient_baseline ∷ []
    else if at_least_score 2 s
    then amount_spike_high ∷ []
    else when (at_least_score 1 s) amount_spike_medium

unfoldable pub context_codes : Inputs → List ReasonCode
context_codes i =
    if leb context_min_events i.baseline_context_event_count
    then when (i.currency_history_count == 0) new_currency
      ++ (when (i.vendor_history_count == 0) first_time_vendor
          ++ when (i.agent_user_history_count == 0) first_time_agent_user)
    else []

pub record Anomaly : Type 0 where
  pub score : Score
  pub severity : Severity
  pub reason_codes : List ReasonCode
  pub observed_amount : ℕ

unfoldable pub compute_infrastructure_identity_anomaly : Posture → ℕ → Inputs → Anomaly
compute_infrastructure_identity_anomaly posture observed i =
    let ready = amount_ready i.baseline_profile in
    let score = total_score observed i in
    record {
      score = score;
      severity = raise_for_posture posture (base_severity ready score);
      reason_codes =
          posture_codes posture
          ++ (amount_codes ready (amount_part observed i.baseline_profile) ++ context_codes i);
      observed_amount = observed;
    }
