-- ===== src/Tournament/Scorer.antt =====
-- src/understudy/tournament/scorer.py: the subscores, the rules of disqualification and the
-- composite score. A float is a fraction; a subscore is recorded in ten thousandths, as
-- `round(x, 4)` gives it. The configuration that `load_scoring_config` finds is a parameter.
pub mod Bounds
pub mod Sufficiency
pub mod Outcome
use understudy.Common.{
  ℕ, zero, suc, ◌+◌, ◌*◌, String, Bool, true, false, not, ◌||◌, Option, none, some, ◌>>=◌, List, [],
  ◌∷◌, length, is_empty, pos, ltb, leb, if◌then◌else◌, member, lookup_in, starts_with, ◌<>◌, Ratio,
  ratio, of_ℤ, leb_ratio, plus_ratio, sum_ratio, times_ratio, over_ratio, zero_ratio, one_ratio,
  clamp_ratio, ten_thousandths,
}
use understudy.Contracts.Incident.{MirrorStats}
use understudy.Contracts.Evidence.{CandidateEvidence, CandidateScore}
use understudy.Graph.Service.{ServiceGraph, request_share}

-- The weights, ceilings and thresholds of a score.
pub record ScoringConfig : Type 0 where
  pub recovery_weight : Ratio
  pub blast_weight : Ratio
  pub downstream_weight : Ratio
  pub violations_weight : Ratio
  pub recovery_timeout_seconds : Ratio
  pub downstream_error_ceiling : Ratio
  pub violation_ceiling : ℕ
  pub mirror_drop_ceiling : Ratio
  pub min_probe_samples : ℕ
  pub ambiguity_margin : Ratio
  pub hard_invariants : List String
  pub service_request_shares : List (String × Ratio)

abbrev pub default_service_request_shares : List (String × Ratio)
default_service_request_shares =
    ("edge-gateway", ratio (pos 40) 100)
    ∷ ("auth-service", ratio (pos 30) 100)
    ∷ ("data-service", ratio (pos 20) 100)
    ∷ ("worker", ratio (pos 10) 100)
    ∷ []

-- The defaults of the fields.
abbrev pub default_config : ScoringConfig
default_config = record {
  recovery_weight = ratio (pos 40) 100;
  blast_weight = ratio (pos 25) 100;
  downstream_weight = ratio (pos 20) 100;
  violations_weight = ratio (pos 15) 100;
  recovery_timeout_seconds = of_ℤ (pos 180);
  downstream_error_ceiling = ratio (pos 10) 100;
  violation_ceiling = 5;
  mirror_drop_ceiling = ratio (pos 5) 100;
  min_probe_samples = 60;
  ambiguity_margin = ratio (pos 15) 100;
  hard_invariants = "K6" ∷ "K10" ∷ [];
  service_request_shares = default_service_request_shares;
}

abbrev is_positive : Ratio → Bool
is_positive r = not (leb_ratio r zero_ratio)

unfoldable pub compute_recovery_subscore : Bool → Option Ratio → Ratio → Ratio
unfolding over_ratio clamp_ratio
compute_recovery_subscore false seconds timeout = one_ratio
compute_recovery_subscore true none timeout = one_ratio
compute_recovery_subscore true (some seconds) timeout =
    if is_positive timeout then clamp_ratio (over_ratio seconds timeout) else one_ratio

-- `sum(shares[s] for s in services)`; `none` is the ValueError for a service without a share.
unfoldable pub total_share : List (String × Ratio) → List String → Option Ratio
unfolding plus_ratio
total_share shares [] = some zero_ratio
total_share shares (s ∷ ss) = do
  r ← lookup_in s shares
  rest ← total_share shares ss
  some (plus_ratio r rest)

abbrev graph_shares : ServiceGraph → List String → List Ratio
graph_shares g [] = []
graph_shares g (s ∷ ss) = request_share g s ∷ graph_shares g ss

-- Where the shares of the observed services come from: the graph, the shares given, or else the
-- shares of the loaded configuration.
unfoldable pub observed_share :
    List (String × Ratio)
    → List String
    → Option (List (String × Ratio))
    → Option ServiceGraph
    → Option Ratio
unfolding sum_ratio request_share total_share
observed_share loaded observed shares (some g) = some (sum_ratio (graph_shares g observed))
observed_share loaded observed (some shares) none = total_share shares observed
observed_share loaded observed none none = total_share loaded observed

abbrev pub clamped : Option Ratio → Option Ratio
clamped none = none
clamped (some r) = some (clamp_ratio r)

unfoldable pub compute_blast_subscore :
    List (String × Ratio)
    → List String
    → Option (List (String × Ratio))
    → Option ServiceGraph
    → Option Ratio
    → Option Ratio
unfolding observed_share clamp_ratio
compute_blast_subscore loaded observed shares graph (some radius) = some (clamp_ratio radius)
compute_blast_subscore loaded [] shares graph none = some zero_ratio
compute_blast_subscore loaded (s ∷ ss) shares graph none =
    clamped (observed_share loaded (s ∷ ss) shares graph)

unfoldable pub compute_downstream_subscore : Ratio → Ratio → Ratio
unfolding over_ratio clamp_ratio
compute_downstream_subscore delta ceiling =
    if is_positive ceiling
    then clamp_ratio (over_ratio delta ceiling)
    else (if is_positive delta then one_ratio else zero_ratio)

unfoldable pub compute_violations_subscore : ℕ → ℕ → Ratio
unfolding clamp_ratio
compute_violations_subscore count zero = if ltb 0 count then one_ratio else zero_ratio
compute_violations_subscore count (suc c) = clamp_ratio (ratio (pos count) (suc c))

-- The first violation of a hard invariant.
unfoldable pub first_hard : List String → List String → Option String
unfolding starts_with
first_hard hard [] = none
first_hard hard (v ∷ vs) =
    if member v hard || starts_with v "hard:" then some v else first_hard hard vs

-- `MirrorStats.drop_ratio`
abbrev pub drop_ratio : MirrorStats → Ratio
drop_ratio m =
    if ltb 0 (m.delivered + m.dropped)
    then ratio (pos m.dropped) (m.delivered + m.dropped)
    else zero_ratio

-- The reason for which a candidate is disqualified.
unfoldable pub check_disqualification : CandidateEvidence → ScoringConfig → Bool → Option String
unfolding first_hard
check_disqualification ev config twin_ready =
    if not twin_ready || member "twin_not_ready" ev.invariant_violations
    then some "twin_not_ready"
    else elim (first_hard config.hard_invariants ev.invariant_violations) [
      | some v ↦ some ("hard_invariant_violation: " <> v)
      | none ↦
          if not ev.evidence_complete
          then some "evidence_incomplete"
          else if not (leb_ratio (drop_ratio ev.mirror_stats) config.mirror_drop_ceiling)
          then some "evidence_incomplete"
          else if ltb (length ev.probes) config.min_probe_samples
          then some "evidence_incomplete"
          else none
    ]

abbrev pub is_some {ℓ} : {A : Type ℓ} → Option A → Bool
is_some (some _) = true
is_some none = false

-- `round(x, 4)` of a subscore
abbrev pub rounded : Ratio → Ratio
rounded x = ratio (pos (ten_thousandths x)) 10000

-- The weighted sum of the subscores.
unfoldable pub raw_composite : ScoringConfig → Ratio → Ratio → Ratio → Ratio → Ratio
unfolding plus_ratio times_ratio
raw_composite c rec blast downstream violations =
    plus_ratio
      (plus_ratio
        (plus_ratio (times_ratio c.recovery_weight rec) (times_ratio c.blast_weight blast))
        (times_ratio c.downstream_weight downstream))
      (times_ratio c.violations_weight violations)

-- The composite score in millionths, rounded to four places.
unfoldable pub composite_of : Option String → Ratio → ℕ
unfolding clamp_ratio ten_thousandths
composite_of (some reason) raw = ten_thousandths one_ratio * 100
composite_of none raw = ten_thousandths (clamp_ratio raw) * 100

-- The score of a candidate, once its blast subscore is known.
unfoldable pub score_with : CandidateEvidence → ScoringConfig → Bool → Ratio → CandidateScore
unfolding compute_recovery_subscore compute_downstream_subscore compute_violations_subscore
    check_disqualification raw_composite composite_of ten_thousandths
score_with ev cfg twin_ready blast =
    let rec =
      compute_recovery_subscore ev.recovered ev.recovery_seconds cfg.recovery_timeout_seconds in
    let downstream =
      compute_downstream_subscore ev.downstream_error_delta cfg.downstream_error_ceiling in
    let violations =
      compute_violations_subscore (length ev.invariant_violations) cfg.violation_ceiling in
    let reason = check_disqualification ev cfg twin_ready in
    record {
      plan_id = ev.plan_id;
      composite = composite_of reason (raw_composite cfg rec blast downstream violations);
      components =
          ("recovery", rounded rec)
          ∷ ("blast", rounded blast)
          ∷ ("downstream", rounded downstream)
          ∷ ("violations", rounded violations)
          ∷ [];
      disqualified = is_some reason;
      disqualification_reason = reason;
    }

abbrev pub or_config : Option ScoringConfig → ScoringConfig → ScoringConfig
or_config (some c) loaded = c
or_config none loaded = loaded

-- `d.get(k, True)`
abbrev pub or_true : Option Bool → Bool
or_true (some b) = b
or_true none = true

module _ (loaded : ScoringConfig) (config : Option ScoringConfig)
    (request_shares : Option (List (String × Ratio))) (graph : Option ServiceGraph) where
  unfoldable pub score_candidate : CandidateEvidence → Bool → Option Ratio → Option CandidateScore
  unfolding compute_blast_subscore score_with
  score_candidate ev twin_ready blast_radius = do
    blast ←
        compute_blast_subscore loaded.service_request_shares ev.observed_blast_set request_shares
          graph blast_radius
    some (score_with ev (or_config config loaded) twin_ready blast)

  -- An absent dict is an empty list.
  unfoldable pub score_candidates :
      List (String × Bool)
      → List (String × Ratio)
      → List CandidateEvidence
      → Option (List CandidateScore)
  unfolding score_candidate
  score_candidates twins_ready blast_scores [] = some []
  score_candidates twins_ready blast_scores (ev ∷ evs) = do
    s ←
        score_candidate ev (or_true (lookup_in ev.plan_id twins_ready))
          (lookup_in ev.plan_id blast_scores)
    rest ← score_candidates twins_ready blast_scores evs
    some (s ∷ rest)
