-- ===== src/Tournament/Arbiter/Winner.antt =====
-- The winner that the scores of src/understudy/tournament/arbiter.py give.
use understudy.Common.{
  ℕ, ◌≤◌, String, true, false, Option, none, some, List, [], ◌∷◌, ◌≡◌, refl, ap, ◌⊎◌, inl, inr,
  Bool-cases, arith, All, All-map, Memᴰ, head, tail, keep, eq_iff, ℤ, negsuc, ◌+ℤ◌, ◌≤ℤ◌, sub_ℕ,
  ◌+◌, pos_part, neg_part, +ℤ_parts,
}
use understudy.Contracts.Evidence.{CandidateScore}
use understudy.Tournament.Arbiter.{
  sorted_scores, score_margin, is_viable, derive_winner_from_scores, same_text, conclude,
  runner_up_of, Arbitration, result, assertion_error, arbitrate,
}
use understudy.Contracts.Enums.{TournamentOutcome, decided, ambiguous}
use understudy.Tournament.Arbiter.Deciding.{arbitrate-none, arbitrate-top}
use understudy.Tournament.Arbiter.Ranking.{sorted-All, All-sorted, sorted-Ordered, sorted-least}
use understudy.Tournament.Arbiter.Agreement.{List-cases, keep-All}
use understudy.Tournament.Floats.{Floats, IsAccurate, IsSmall, is_narrow, wide}

-- A viable score of the list.
abbrev Stands : List CandidateScore → CandidateScore → Type 0
Stands ss s = Memᴰ s ss × (is_viable s ≡ true)

Stands-cons :
    (s : CandidateScore) (ss ts : List CandidateScore)
    → All (Stands ss) ts
    → All (Stands (s ∷ ss)) ts
Stands-cons s ss ts h = All-map (Stands ss) (Stands (s ∷ ss)) (λ t k. (tail k.0, k.1)) ts h

kept-Stands : (ss : List CandidateScore) → All (Stands ss) (keep is_viable ss)
kept-Stands [] = tt
kept-Stands (s ∷ ss) =
    let later = Stands-cons s ss (keep is_viable ss) (kept-Stands ss) in
    elim (Bool-cases (is_viable s)) [ inl e ↦ rw e ((head refl, e), later) | inr e ↦ rw e later ]

-- What holds of the viable scores that are kept.
unkept :
    (P : CandidateScore → Type 0) (ss : List CandidateScore)
    → All P (keep is_viable ss)
    → All (λ s. is_viable s ≡ true → P s) ss
unkept P [] h = tt
unkept P (s ∷ ss) h = elim (Bool-cases (is_viable s)) [
  | inl e ↦ let h' = rw e at h in ((λ _. h'.0), unkept P ss h'.1)
  | inr e ↦ let h' = rw e at h in ((λ v. absurd cc), unkept P ss h')
]

-- `s` is `top`, or above it by the margin `a` less the tolerance of a millionth.
abbrev pub Clears : ℤ → CandidateScore → CandidateScore → Type 0
Clears a top s = (s ≡ top) ⊎ (a +ℤ negsuc 0 ≤ℤ sub_ℕ s.composite top.composite)

clears : (a : ℤ) (m n : ℕ) → pos_part a + n ≤ m + neg_part a + 1 → a +ℤ negsuc 0 ≤ℤ sub_ℕ m n
clears a m n h = let e = +ℤ_parts a (negsuc 0) in ground arith

farther : (b : ℤ) (t x y : ℕ) → x ≤ y → b ≤ℤ sub_ℕ x t → b ≤ℤ sub_ℕ y t
farther b t x y le h = ground arith

-- At most 1.
abbrev pub InRange : CandidateScore → Type 0
InRange s = s.composite ≤ 1000000

module _ (fl : Floats) where
  Clears-rest :
      (a : ℤ) (top : CandidateScore) (rest scores : List CandidateScore)
      → IsAccurate fl
      → IsSmall a
      → All InRange scores
      → sorted_scores (keep is_viable scores) ≡ top ∷ rest
      → is_narrow (score_margin fl top rest scores) (fl.less_tolerance a) ≡ false
      → All (Clears a top) rest
  unfolding score_margin
  Clears-rest a top [] scores acc small r e n = tt
  Clears-rest a top (second ∷ more) scores acc small r e n =
      let ranges =
        sorted-All InRange (keep is_viable scores) (keep-All InRange is_viable scores r) in
      let in_range = rw e at ranges in
      let m = second.composite in
      let near = acc.difference m top.composite in_range.1.0 in_range.0 in
      let gap = clears a m top.composite (
        wide (fl.minus m top.composite) (fl.less_tolerance a) a m top.composite near
          (acc.tolerance a small) n) in
      let order = sorted-Ordered (keep is_viable scores) in
      let above = (rw e at order).1.0 in
      (
        inr gap,
        All-map (λ s. m ≤ s.composite) (Clears a top)
            (λ s le. inr (farther (a +ℤ negsuc 0) top.composite m s.composite le gap)) more above,
      )

  -- The first of the viable scores in order, by a margin that is not narrow.
  derived :
      (scores : List CandidateScore) (a : ℤ) (w : String)
      → derive_winner_from_scores fl scores a ≡ some w
      → (top : CandidateScore) × (rest : List CandidateScore) × (top.plan_id ≡ w)
        × (sorted_scores (keep is_viable scores) ≡ top ∷ rest)
        × (is_narrow (score_margin fl top rest scores) (fl.less_tolerance a) ≡ false)
  unfolding derive_winner_from_scores
  derived scores a w e = elim (List-cases (sorted_scores (keep is_viable scores))) [
    | inl q ↦ let e' = rw (q, derive_winner_from_scores) at e in cc
    | inr (top, rest, q) ↦
        elim (Bool-cases (is_narrow (score_margin fl top rest scores) (fl.less_tolerance a))) [
          | inl n ↦ let e' = rw (q, derive_winner_from_scores, n) at e in cc
          | inr n ↦
              let e' = rw (q, derive_winner_from_scores, n) at e in
              let id : top.plan_id ≡ w = cc in (top, rest, id, q, n)
        ]
  ]

  -- A winner is the plan of one of the scores, which is viable.
  pub derived-Stands :
      (scores : List CandidateScore) (a : ℤ) (w : String)
      → derive_winner_from_scores fl scores a ≡ some w
      → (top : CandidateScore) × (top.plan_id ≡ w) × Stands scores top
  derived-Stands scores a w e =
      let (top, rest, id, q, n) = derived scores a w e in
      let all = sorted-All (Stands scores) (keep is_viable scores) (kept-Stands scores) in
      let stands = rw q at all in (top, id, stands.0)

  -- When no composite score is above 1, the ambiguity margin is between -1 and 1, and float operations
  -- err by less than a quarter of a millionth: a winner is the plan of one of the scores, which is
  -- viable and is a smallest viable one; and any other viable score is above it by the ambiguity
  -- margin, less a tolerance of a millionth.
  pub derive_winner_from_scores-least :
      (scores : List CandidateScore) (a : ℤ) (w : String)
      → IsAccurate fl
      → IsSmall a
      → All InRange scores
      → derive_winner_from_scores fl scores a ≡ some w
      → (top : CandidateScore) × (top.plan_id ≡ w)
        × Memᴰ top scores
        × (top.disqualified ≡ false)
        × All (λ s. is_viable s ≡ true → top.composite ≤ s.composite) scores
        × All (λ s. is_viable s ≡ true → Clears a top s) scores
  derive_winner_from_scores-least scores a w acc small r e =
      let (top, rest, id, q, n) = derived scores a w e in
      let all = sorted-All (Stands scores) (keep is_viable scores) (kept-Stands scores) in
      let stands = (rw q at all).0 in
      let viable = stands.1 in
      (
        top,
        id,
        stands.0,
        ground arith,
        unkept (λ s. top.composite ≤ s.composite) scores
            (sorted-least top rest (keep is_viable scores) q),
        unkept (Clears a top) scores (
            All-sorted (Clears a top) (keep is_viable scores)
              (rw q (inl refl, Clears-rest a top rest scores acc small r q n))),
      )

-- The plan that an arbitration declares the winner.
abbrev pub winner_of : Arbitration → Option String
winner_of (result r) = r.winner_plan_id
winner_of assertion_error = none

same_text-eq : (s t : Option String) → same_text s t ≡ true → s ≡ t
same_text-eq none none e = refl
same_text-eq (some s) (some t) e = ap some ((eq_iff s t).0 e)
same_text-eq none (some t) e = cc
same_text-eq (some s) none e = cc

module _ (fl : Floats) (l j : Option (List String)) (incident : String) (a : ℤ) (now : ℕ) where
  conclude-winner :
      (ss : List CandidateScore) (o : TournamentOutcome) (w r : Option String) (m : ℤ) (p : String)
      → winner_of (conclude fl l j incident a now ss o w r m) ≡ some p
      → derive_winner_from_scores fl ss a ≡ some p
  unfolding conclude
  conclude-winner ss o w r m p e =
      elim (Bool-cases (same_text w (derive_winner_from_scores fl ss a))) [
        | inl q ↦
            let e' = rw q at e in
            let same = same_text-eq w (derive_winner_from_scores fl ss a) q in cc
        | inr q ↦ let e' = rw q at e in absurd cc
      ]

  pub arbitrate-winner :
      (scores : List CandidateScore) (w : String)
      → winner_of (arbitrate fl l j incident a now scores) ≡ some w
      → derive_winner_from_scores fl scores a ≡ some w
  unfolding arbitrate
  arbitrate-winner [] w e = absurd cc
  arbitrate-winner (s ∷ ss) w e = elim (List-cases (sorted_scores (keep is_viable (s ∷ ss)))) [
    | inl q ↦ let e' = rw (arbitrate-none fl l j incident a now s ss q) at e in absurd cc
    | inr (top, rest, q) ↦
        let beside = runner_up_of fl top rest (s ∷ ss) in
        elim (Bool-cases (is_narrow (fl.float_of beside.1) (fl.less_tolerance a))) [
          | inl n ↦
              conclude-winner (s ∷ ss) ambiguous none none beside.1 w
                (rw (arbitrate-top fl l j incident a now s top ss rest true q n) at e)
          | inr n ↦
              conclude-winner (s ∷ ss) decided (some top.plan_id) beside.0 beside.1 w
                (rw (arbitrate-top fl l j incident a now s top ss rest false q n) at e)
        ]
  ]
