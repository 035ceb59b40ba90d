-- ===== src/Tournament/Scorer/Outcome.antt =====
-- The scores of all candidates of src/understudy/tournament/scorer.py, and what
-- src/understudy/tournament/arbiter.py makes of them.
use understudy.Common.{
  ℕ, String, Bool, Option, none, some, ◌>>=◌, >>=-some, List, [], ◌∷◌, ◌≡◌, ◌↔◌, ◌⊎◌, refl, inl,
  inr, Option-cases, All, All-map, Memᴰ, head, tail, lookup_in, Ratio, ℤ, pos, ◌*◌, ◌≤◌, arith,
}
use understudy.Contracts.Evidence.{CandidateEvidence, CandidateScore}
use understudy.Graph.Service.{ServiceGraph}
use understudy.Tournament.Arbiter.{arbitrate}
use understudy.Tournament.Arbiter.Agreement.{IsDecimal}
use understudy.Tournament.Floats.{Floats, IsAccurate}
use understudy.Tournament.Arbiter.Deciding.{Asserts, arbitrate-Asserts}
use understudy.Tournament.Arbiter.Winner.{winner_of, arbitrate-winner, derived-Stands}
use understudy.Tournament.Scorer.{
  ScoringConfig, total_share, observed_share, clamped, compute_blast_subscore, score_candidate,
  score_candidates, or_true, or_config,
}
use understudy.Tournament.Scorer.Bounds.{IsNormal, score_candidate-IsNormal}
use understudy.Tournament.Scorer.Sufficiency.{IsSufficient, IsScoreOf, score_candidate-IsScoreOf}

-- One of the services has no share.
abbrev pub Missing : List (String × Ratio) → List String → Type 0
Missing shares [] = ⊥
Missing shares (s ∷ ss) = (lookup_in s shares ≡ none) ⊎ Missing shares ss

total_share-none :
    (shares : List (String × Ratio)) (ss : List String)
    → (total_share shares ss ≡ none) ↔ Missing shares ss
unfolding total_share
total_share-none shares [] = ((λ h. cc), λ h. absurd h)
total_share-none shares (s ∷ ss) =
    let later = total_share-none shares ss in
    elim (Option-cases (lookup_in s shares)) [
      | inl e ↦ rw e ((λ h. inl refl), λ h. refl)
      | inr (r, e) ↦ rw e elim (Option-cases (total_share shares ss)) [
        | inl q ↦ rw q ((λ h. inr (later.0 q)), λ h. refl)
        | inr (t, q) ↦ rw q (
          (λ h. absurd cc),
          λ h. elim h [ inl p ↦ absurd cc | inr m ↦ let p = later.1 m in absurd cc ],
        )
      ]
    ]

clamped-none : (o : Option Ratio) → (clamped o ≡ none) ↔ (o ≡ none)
clamped-none none = ((λ h. h), λ h. h)
clamped-none (some r) = ((λ h. absurd cc), λ h. absurd cc)

-- The shares that a candidate's blast subscore is added up from when no graph is given.
abbrev or_loaded : Option (List (String × Ratio)) → List (String × Ratio) → List (String × Ratio)
or_loaded (some shares) loaded = shares
or_loaded none loaded = loaded

compute_blast_subscore-none :
    (loaded : List (String × Ratio)) (observed : List String)
    (shares : Option (List (String × Ratio))) (graph : Option ServiceGraph) (radius : Option Ratio)
    → (compute_blast_subscore loaded observed shares graph radius ≡ none)
      ↔ ((radius ≡ none) × (graph ≡ none) × Missing (or_loaded shares loaded) observed)
unfolding compute_blast_subscore observed_share
compute_blast_subscore-none loaded observed shares graph (some r) =
    ((λ h. absurd cc), λ (h, g, m). absurd cc)
compute_blast_subscore-none loaded [] shares graph none = ((λ h. absurd cc), λ (h, g, m). absurd m)
compute_blast_subscore-none loaded (s ∷ ss) shares (some g) none =
    ((λ h. absurd cc), λ (h, g, m). absurd cc)
compute_blast_subscore-none loaded (s ∷ ss) (some shares) none none =
    let t = total_share-none shares (s ∷ ss) in
    let c = clamped-none (total_share shares (s ∷ ss)) in
    ((λ h. (refl, refl, t.0 (c.0 h))), λ (h, g, m). c.1 (t.1 m))
compute_blast_subscore-none loaded (s ∷ ss) none none none =
    let t = total_share-none loaded (s ∷ ss) in
    let c = clamped-none (total_share loaded (s ∷ ss)) in
    ((λ h. (refl, refl, t.0 (c.0 h))), λ (h, g, m). c.1 (t.1 m))

-- Scoring a candidate raises an error exactly if neither a blast radius nor a graph is given and
-- some observed service has no share: in the shares given, or else in the loaded configuration,
-- whichever configuration was passed.
pub score_candidate-raises_iff :
    (loaded : ScoringConfig) (config : Option ScoringConfig)
    (shares : Option (List (String × Ratio))) (graph : Option ServiceGraph) (ev : CandidateEvidence)
    (twin_ready : Bool) (radius : Option Ratio)
    → (score_candidate loaded config shares graph ev twin_ready radius ≡ none) ↔ (
        (radius ≡ none)
        × (graph ≡ none)
        × Missing (or_loaded shares loaded.service_request_shares) ev.observed_blast_set)
unfolding score_candidate
score_candidate-raises_iff loaded config shares graph ev twin_ready radius =
    let b =
      compute_blast_subscore-none loaded.service_request_shares ev.observed_blast_set shares graph
        radius in
    elim (Option-cases (
      compute_blast_subscore loaded.service_request_shares ev.observed_blast_set shares graph
        radius)) [
          | inl e ↦ rw e ((λ h. b.0 e), λ h. refl)
          | inr (r, e) ↦ rw e ((λ h. absurd cc), λ h. let e' = b.1 h in absurd cc)
        ]

module _ (loaded : ScoringConfig) (config : Option ScoringConfig)
    (shares : Option (List (String × Ratio))) (graph : Option ServiceGraph)
    (twins_ready : List (String × Bool)) (blast_scores : List (String × Ratio)) where
  abbrev pub is_ready : CandidateEvidence → Bool
  is_ready ev = or_true (lookup_in ev.plan_id twins_ready)

  -- The evidence that a score is for stands in the list.
  abbrev pub HasEvidence : List CandidateEvidence → CandidateScore → Type 0
  HasEvidence evs s =
      (ev : CandidateEvidence) × Memᴰ ev evs
      × IsScoreOf ev (or_config config loaded) (is_ready ev) s

  score_candidates-All :
      (evs : List CandidateEvidence) (scores : List CandidateScore)
      → score_candidates loaded config shares graph twins_ready blast_scores evs ≡ some scores
      → All IsNormal scores × All (HasEvidence evs) scores
  unfolding score_candidates
  score_candidates-All [] [] e = (tt, tt)
  score_candidates-All [] (s ∷ ss) e = absurd cc
  score_candidates-All (ev ∷ evs) scores e =
      let first =
        score_candidate loaded config shares graph ev (is_ready ev)
          (lookup_in ev.plan_id blast_scores) in
      let others = score_candidates loaded config shares graph twins_ready blast_scores evs in
      let (s, p, q) = >>=-some first (λ s. others >>= λ rest. some (s ∷ rest)) scores e in
      let (rest, p', q') = >>=-some others (λ rest. some (s ∷ rest)) scores q in
      let (normal, scored) = score_candidates-All evs rest p' in
      let radius = lookup_in ev.plan_id blast_scores in
      let same : s ∷ rest ≡ scores = cc in
      rw (← same) (
        (score_candidate-IsNormal loaded config shares graph ev (is_ready ev) radius s p, normal),
        (
          (
            ev,
            head refl,
            score_candidate-IsScoreOf loaded config shares graph ev (is_ready ev) radius s p,
          ),
          All-map (HasEvidence evs) (HasEvidence (ev ∷ evs)) (λ t (x, m, h). (x, tail m, h)) rest
              scored,
        ),
      )

  module _ (fl : Floats) (l j : Option (List String)) (incident : String) (a : ℤ) (now : ℕ) where
    -- When the ambiguity margin is at most 1 and has four decimal places, and float operations err by
    -- less than a quarter of a millionth, the arbiter's assertion does not fail on the scores that the
    -- scorer gives.
    pub score_candidates-Asserts :
        (k : ℕ)
        → IsAccurate fl
        → k ≤ 10000
        → a ≡ pos (k * 100)
        → (evs : List CandidateEvidence) (scores : List CandidateScore)
        → score_candidates loaded config shares graph twins_ready blast_scores evs ≡ some scores
        → Asserts (arbitrate fl l j incident a now scores)
    score_candidates-Asserts k acc small at evs scores e =
        let (normal, _) = score_candidates-All evs scores e in
        arbitrate-Asserts fl l j incident a now k acc small at scores
          (All-map IsNormal IsDecimal (λ s n. (n.1, n.0)) scores normal)

    evidence_of :
        (evs : List CandidateEvidence) (scores : List CandidateScore) (s : CandidateScore)
        → Memᴰ s scores
        → All (HasEvidence evs) scores
        → HasEvidence evs s
    evidence_of evs [] s m h = elim m [ ]
    evidence_of evs (t ∷ ts) s (head e) h = rw e h.0
    evidence_of evs (t ∷ ts) s (tail m) h = evidence_of evs ts s m h.1

    -- A plan that the arbiter declares the winner, on the scores that the scorer gives, is the plan
    -- of rehearsed evidence whose twin was ready, in which no hard invariant was violated, and which
    -- is complete, with few enough mirrored requests dropped and enough probe samples.
    pub winner-IsSufficient :
        (evs : List CandidateEvidence) (scores : List CandidateScore) (w : String)
        → score_candidates loaded config shares graph twins_ready blast_scores evs ≡ some scores
        → winner_of (arbitrate fl l j incident a now scores) ≡ some w
        → (ev : CandidateEvidence) × Memᴰ ev evs
          × (ev.plan_id ≡ w)
          × IsSufficient ev (or_config config loaded) (is_ready ev)
    winner-IsSufficient evs scores w e won =
        let derived = arbitrate-winner fl l j incident a now scores w won in
        let (top, id, (among, viable)) = derived-Stands fl scores a w derived in
        let (_, scored) = score_candidates-All evs scores e in
        let (ev, m, (same, sufficient, worst)) = evidence_of evs scores top among scored in
        (ev, m, cc, sufficient.0 (ground arith))
