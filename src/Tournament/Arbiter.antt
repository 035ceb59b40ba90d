-- ===== src/Tournament/Arbiter.antt =====
-- src/understudy/tournament/arbiter.py: `derive_winner_from_scores` and `arbitrate`, with
-- `compute_judge_agreement` of judge.py. Composites count millionths; the floats between them, their
-- differences and the comparisons are those of Floats.
pub mod Ranking
pub mod Agreement
pub mod Deciding
pub mod Winner
use understudy.Common.{
  is_even, ℕ, suc, ◌+◌, ◌-◌, ◌*◌, ◌/◌, String, Bool, true, false, not, ◌&&◌, ◌||◌, Option, none,
  some, List, [], ◌∷◌, is_empty, ℤ, pos, negsuc, ◌+ℤ◌, neg, sub_ℕ, leb_ℤ, ltb, leb, ◌==◌, str_eq,
  str_leb, if◌then◌else◌, keep,
}
use understudy.Tournament.Floats.{Floats, is_narrow, round_4}
use understudy.Contracts.Enums.{TournamentOutcome, decided, ambiguous, no_viable_candidate}
use understudy.Contracts.Evidence.{CandidateScore, TournamentResult}

-- `(s.composite, s.plan_id) <= (t.composite, t.plan_id)`
abbrev pub key_leb : CandidateScore → CandidateScore → Bool
key_leb s t =
    ltb s.composite t.composite || (s.composite == t.composite && str_leb s.plan_id t.plan_id)

unfoldable pub insert_score : CandidateScore → List CandidateScore → List CandidateScore
insert_score s [] = s ∷ []
insert_score s (t ∷ ts) =
    let later = insert_score s ts in if key_leb s t then s ∷ t ∷ ts else t ∷ later

-- `sorted(scores, key=lambda s: (s.composite, s.plan_id))`
unfoldable pub sorted_scores : List CandidateScore → List CandidateScore
unfolding insert_score
sorted_scores [] = []
sorted_scores (s ∷ ss) = insert_score s (sorted_scores ss)

-- `min(...)` by the same key: the first of the smallest.
unfoldable pub min_score : CandidateScore → List CandidateScore → CandidateScore
min_score s [] = s
min_score s (t ∷ ts) = if key_leb s t then min_score s ts else min_score t ts

abbrev pub is_viable : CandidateScore → Bool
is_viable s = not s.disqualified

-- The scores of other plans.
abbrev pub others : CandidateScore → List CandidateScore → List CandidateScore
others top scores = keep (λ s. not (str_eq s.plan_id top.plan_id)) scores

-- The margin that `derive_winner_from_scores` compares.
unfoldable pub score_margin :
    Floats → CandidateScore → List CandidateScore → List CandidateScore → ℤ
unfolding min_score
score_margin fl top (runner_up ∷ _) scores = fl.minus runner_up.composite top.composite
score_margin fl top [] scores = elim (others top scores) [
  | s ∷ ss ↦ fl.minus (min_score s ss).composite top.composite
  | [] ↦ fl.minus 1000000 top.composite
]

unfoldable pub derive_winner_from_scores : Floats → List CandidateScore → ℤ → Option String
unfolding sorted_scores score_margin
derive_winner_from_scores fl scores ambiguity_margin =
    elim (sorted_scores (keep is_viable scores)) [
      | [] ↦ none
      | top ∷ rest ↦
          if is_narrow (score_margin fl top rest scores) (fl.less_tolerance ambiguity_margin)
          then none
          else some top.plan_id
    ]

-- `min(scores, key=lambda s: s.composite)`: the first of the smallest.
unfoldable pub best_score : CandidateScore → List CandidateScore → CandidateScore
best_score s [] = s
best_score s (t ∷ ts) = if ltb t.composite s.composite then best_score t ts else best_score s ts

-- What a judge's first choice is held against: a winner's id, scores, or None.
pub data DeterministicTarget : Type 0 where
  by_id : String → DeterministicTarget
  by_scores : List CandidateScore → DeterministicTarget
  by_nothing : DeterministicTarget

unfoldable pub compute_judge_agreement : Option (List String) → DeterministicTarget → Option Bool
unfolding best_score
compute_judge_agreement none target = none
compute_judge_agreement (some []) target = none
compute_judge_agreement (some (top ∷ _)) (by_id winner) = some (str_eq top winner)
compute_judge_agreement (some (top ∷ _)) by_nothing = none
compute_judge_agreement (some (top ∷ _)) (by_scores []) = none
compute_judge_agreement (some (top ∷ _)) (by_scores (s ∷ ss)) =
    some (str_eq top (best_score s ss).plan_id)

-- `effective_llm_ranking`; a judge evaluation is given by its ranking.
abbrev pub effective_ranking : Option (List String) → Option (List String) → Option (List String)
effective_ranking (some r) judge = some r
effective_ranking none none = none
effective_ranking none (some r) = if is_empty r then none else some r

-- The score beside the winner's and the rounded margin, a decimal in millionths.
unfoldable pub runner_up_of :
    Floats → CandidateScore → List CandidateScore → List CandidateScore → Option String × ℤ
unfolding sorted_scores round_4
runner_up_of fl top (second ∷ _) scores =
    (some second.plan_id, round_4 (fl.minus second.composite top.composite))
runner_up_of fl top [] scores = elim (sorted_scores (others top scores)) [
  | s ∷ _ ↦ (some s.plan_id, round_4 (fl.minus s.composite top.composite))
  | [] ↦ (none, round_4 (fl.minus 1000000 top.composite))
]

pub data Arbitration : Type 0 where
  result : TournamentResult → Arbitration
  assertion_error : Arbitration

abbrev pub same_text : Option String → Option String → Bool
same_text none none = true
same_text (some s) (some t) = str_eq s t
same_text _ _ = false

abbrev pub agreement_with : Option (List String) → Option String → Option Bool
agreement_with ranking none = none
agreement_with ranking (some w) = compute_judge_agreement ranking (by_id w)

module _ (fl : Floats) (llm_ranking judge : Option (List String)) (incident : String)
    (ambiguity_margin : ℤ) (now : ℕ) where
  abbrev pub no_winner : List CandidateScore → Option (List String) → Arbitration
  no_winner scores ranking = result (record {
    incident_id = incident;
    outcome = no_viable_candidate;
    scores = scores;
    llm_ranking = ranking;
    llm_agreement = none;
    winner_plan_id = none;
    runner_up_plan_id = none;
    margin = none;
    decided_at = now;
  })

  unfoldable pub conclude :
      List CandidateScore → TournamentOutcome → Option String → Option String → ℤ → Arbitration
  unfolding derive_winner_from_scores
  conclude scores o winner runner_up margin =
      if same_text winner (derive_winner_from_scores fl scores ambiguity_margin)
      then result (record {
        incident_id = incident;
        outcome = o;
        scores = scores;
        llm_ranking = effective_ranking llm_ranking judge;
        llm_agreement = agreement_with (effective_ranking llm_ranking judge) winner;
        winner_plan_id = winner;
        runner_up_plan_id = runner_up;
        margin = some margin;
        decided_at = now;
      })
      else assertion_error

  unfoldable pub arbitrate : List CandidateScore → Arbitration
  unfolding conclude runner_up_of
  arbitrate [] = no_winner [] none
  arbitrate (s ∷ ss) =
      let scores = s ∷ ss in
      elim (sorted_scores (keep is_viable scores)) [
        | [] ↦ no_winner scores (effective_ranking llm_ranking judge)
        | top ∷ rest ↦
            let beside = runner_up_of fl top rest scores in
            if is_narrow (fl.float_of beside.1) (fl.less_tolerance ambiguity_margin)
            then conclude scores ambiguous none none beside.1
            else conclude scores decided (some top.plan_id) beside.0 beside.1
      ]
