-- ===== src/Tournament/Arbiter/Ranking.antt =====
-- Sorting scores and taking their minimum.
use mathlib.Core.Path.{subst}
use understudy.Common.{
  ℕ, ◌≤◌, true, false, List, [], ◌∷◌, ◌≡◌, refl, sym, ◌∙◌, inl, inr, Bool-cases, arith, All,
  All-map, if◌then◌else◌,
}
use understudy.Contracts.Evidence.{CandidateScore}
use understudy.Tournament.Arbiter.{key_leb, insert_score, sorted_scores, min_score}

key_leb-le : (s t : CandidateScore) → key_leb s t ≡ true → s.composite ≤ t.composite
key_leb-le s t e = ground arith

key_leb-ge : (s t : CandidateScore) → key_leb s t ≡ false → t.composite ≤ s.composite
key_leb-ge s t e = ground arith

-- No score of the list is below `n`.
abbrev pub AtLeast : ℕ → List CandidateScore → Type 0
AtLeast n = All (λ s. n ≤ s.composite)

-- A list whose first score is a smallest, and so on.
abbrev Ordered : List CandidateScore → Type 0
Ordered [] = Unit
Ordered (s ∷ ss) = AtLeast s.composite ss × Ordered ss

AtLeast-trans : (m n : ℕ) (ss : List CandidateScore) → m ≤ n → AtLeast n ss → AtLeast m ss
AtLeast-trans m n ss le h =
    All-map (λ s. n ≤ s.composite) (λ s. m ≤ s.composite) (λ s h. omega arith) ss h

module _ {κ} (P : CandidateScore → Type κ) where
  insert-All :
      (s : CandidateScore) (ss : List CandidateScore) → P s → All P ss → All P (insert_score s ss)
  unfolding insert_score
  insert-All s [] p h = (p, tt)
  insert-All s (t ∷ ts) p h = elim (Bool-cases (key_leb s t)) [
    | inl e ↦ rw e (p, h)
    | inr e ↦ rw e (h.0, insert-All s ts p h.1)
  ]

  pub sorted-All : (ss : List CandidateScore) → All P ss → All P (sorted_scores ss)
  unfolding sorted_scores
  sorted-All [] h = tt
  sorted-All (s ∷ ss) h = insert-All s (sorted_scores ss) h.0 (sorted-All ss h.1)

  All-insert :
      (s : CandidateScore) (ss : List CandidateScore) → All P (insert_score s ss) → P s × All P ss
  unfolding insert_score
  All-insert s [] h = h
  All-insert s (t ∷ ts) h = elim (Bool-cases (key_leb s t)) [
    | inl e ↦ rw e at h
    | inr e ↦ let h' = rw e at h in let (p, rest) = All-insert s ts h'.1 in (p, (h'.0, rest))
  ]

  pub All-sorted : (ss : List CandidateScore) → All P (sorted_scores ss) → All P ss
  unfolding sorted_scores
  All-sorted [] h = tt
  All-sorted (s ∷ ss) h =
      let (p, rest) = All-insert s (sorted_scores ss) h in (p, All-sorted ss rest)

insert-Ordered :
    (s : CandidateScore) (ss : List CandidateScore) → Ordered ss → Ordered (insert_score s ss)
unfolding insert_score
insert-Ordered s [] o = (tt, tt)
insert-Ordered s (t ∷ ts) o = elim (Bool-cases (key_leb s t)) [
  | inl e ↦
      let le = key_leb-le s t e in rw e ((le, AtLeast-trans s.composite t.composite ts le o.0), o)
  | inr e ↦ rw e (
    insert-All (λ r. t.composite ≤ r.composite) s ts (key_leb-ge s t e) o.0,
    insert-Ordered s ts o.1,
  )
]

pub sorted-Ordered : (ss : List CandidateScore) → Ordered (sorted_scores ss)
unfolding sorted_scores
sorted-Ordered [] = tt
sorted-Ordered (s ∷ ss) = insert-Ordered s (sorted_scores ss) (sorted-Ordered ss)

-- The first of the sorted scores is a smallest of all.
pub sorted-least :
    (top : CandidateScore) (rest ss : List CandidateScore)
    → sorted_scores ss ≡ top ∷ rest
    → AtLeast top.composite ss
sorted-least top rest ss e =
    All-sorted (λ r. top.composite ≤ r.composite) ss
      (rw e (omega arith, (let o = sorted-Ordered ss in rw e at o).0))

min_score-step :
    (s t : CandidateScore) (ts : List CandidateScore)
    → min_score s (t ∷ ts) ≡ (if key_leb s t then min_score s ts else min_score t ts)
unfolding min_score
min_score-step s t ts = refl

abbrev Below : CandidateScore → CandidateScore → List CandidateScore → CandidateScore → Type 0
Below s t ts x =
    (x.composite ≤ s.composite) × ((x.composite ≤ t.composite) × AtLeast x.composite ts)

min_score-nil : (s : CandidateScore) → ((min_score s []).composite ≤ s.composite) × Unit {0}
unfolding min_score
min_score-nil s = (omega arith, tt)

min_score-least :
    (s : CandidateScore) (ss : List CandidateScore)
    → ((min_score s ss).composite ≤ s.composite) × AtLeast (min_score s ss).composite ss
min_score-least s [] = min_score-nil s
min_score-least s (t ∷ ts) = elim (Bool-cases (key_leb s t)) [
  | inl e ↦
      let le = key_leb-le s t e in
      let m = min_score-least s ts in
      let here : min_score s (t ∷ ts) ≡ min_score s ts = min_score-step s t ts ∙ rw e refl in
      subst (Below s t ts) (sym here) (m.0, ((let a = m.0 in omega arith), m.1))
  | inr e ↦
      let le = key_leb-ge s t e in
      let m = min_score-least t ts in
      let here : min_score s (t ∷ ts) ≡ min_score t ts = min_score-step s t ts ∙ rw e refl in
      subst (Below s t ts) (sym here) ((let a = m.0 in omega arith), (m.0, m.1))
]

module _ {κ} (P : CandidateScore → Type κ) where
  pub min_score-All :
      (s : CandidateScore) (ss : List CandidateScore) → P s → All P ss → P (min_score s ss)
  unfolding min_score
  min_score-All s [] p h = p
  min_score-All s (t ∷ ts) p h = elim (Bool-cases (key_leb s t)) [
    | inl e ↦ rw e (min_score-All s ts p h.1)
    | inr e ↦ rw e (min_score-All t ts h.0 h.1)
  ]

-- `sorted(...)[0]` and `min(...)` have the same composite.
pub sorted-min :
    (s r : CandidateScore) (ss rest : List CandidateScore)
    → sorted_scores (s ∷ ss) ≡ r ∷ rest
    → (min_score s ss).composite ≡ r.composite
sorted-min s r ss rest e =
    let least = sorted-least r rest (s ∷ ss) e in
    let above = min_score-All (λ x. r.composite ≤ x.composite) s ss least.0 least.1 in
    let m = min_score-least s ss in
    let among = sorted-All (λ x. (min_score s ss).composite ≤ x.composite) (s ∷ ss) m in
    let below = (rw e at among).0 in omega arith
