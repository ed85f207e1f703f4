-- ===== src/Worker/Reconciliation.antt =====
-- apps/worker/reconciliation.py: the two passes of the judge are compared, criterion by criterion.
pub mod Review
pub mod Overall
use session_replica_ielt.Prelude.{
  ℕ, suc, ◌+◌, ◌-◌, min, max, String, Bool, true, false, not, Option, none, some, List, [], ◌∷◌,
  ◌++◌, ltb, if◌then◌else◌, map, length, any, round_ratio,
}
use session_replica_ielt.Worker.Judge.{
  Criterion, criterion_order, same_criterion, CriterionScore, JudgeOutput,
}

-- `{c.criterion: c for c in ...}.get(criterion)`: the last score of a criterion is the one kept.
unfoldable pub score_of : Criterion → List CriterionScore → Option CriterionScore
score_of c [] = none
score_of c (x ∷ xs) = elim (score_of c xs) [
  | some y ↦ some y
  | none ↦ if same_criterion x.criterion c then some x else none
]

-- An entry of `final_scores`.
pub record FinalScore : Type 0 where
  pub criterion : Criterion
  pub band : ℕ
  pub justification : String
  pub evidence_features : List String
  pub confidence : ℕ
  pub pass_1_band : ℕ
  pub pass_2_band : ℕ
  pub disagreement : ℕ

pub record Reconciliation : Type 0 where
  pub final_scores : List FinalScore
  pub overall_band : ℕ
  pub flag_for_human_review : Bool
  pub flagged_criteria : List Criterion
  pub band_diffs : List (Criterion × ℕ)

-- `abs(a - b)`
abbrev pub distance : ℕ → ℕ → ℕ
distance a b = (a - b) + (b - a)

unfoldable pub final_score : Criterion → CriterionScore → CriterionScore → FinalScore
final_score criterion c1 c2 = record {
  criterion = criterion;
  band = round_ratio (c1.band + c2.band) 2;
  justification = c1.justification;
  evidence_features = c1.evidence_features;
  confidence = min c1.confidence c2.confidence;
  pass_1_band = c1.band;
  pass_2_band = c2.band;
  disagreement = distance c1.band c2.band;
}

-- What the loop has collected: `final_scores`, `flagged_criteria` and `band_diffs`.
pub record Collected : Type 0 where
  pub scores : List FinalScore
  pub flagged : List Criterion
  pub diffs : List (Criterion × ℕ)

abbrev pub nothing_yet : Collected
nothing_yet = record { scores = []; flagged = []; diffs = [] }

-- One round of the loop.
unfoldable pub collect :
    ℕ → Criterion → Option CriterionScore → Option CriterionScore → Collected → Collected
unfolding final_score
collect threshold criterion (some c1) (some c2) t =
    let diff = distance c1.band c2.band in
    record {
      scores = t.scores ++ final_score criterion c1 c2 ∷ [];
      flagged = if ltb threshold diff then t.flagged ++ criterion ∷ [] else t.flagged;
      diffs = t.diffs ++ (criterion, diff) ∷ [];
    }
collect threshold criterion _ _ t = record t { flagged = t.flagged ++ criterion ∷ [] }

unfoldable pub collect_all :
    ℕ → List CriterionScore → List CriterionScore → List Criterion → Collected → Collected
unfolding score_of collect
collect_all threshold s1 s2 [] t = t
collect_all threshold s1 s2 (c ∷ cs) t =
    collect_all threshold s1 s2 cs (collect threshold c (score_of c s1) (score_of c s2) t)

abbrev pub sum : List ℕ → ℕ
sum [] = 0
sum (x ∷ xs) = x + sum xs

-- The mean of the final bands, to the nearest half band; 0.0 if there are none.
unfoldable pub overall : List ℕ → ℕ
overall [] = 0
overall bands = round_ratio (sum bands) (length bands)

abbrev pub is_empty : List Criterion → Bool
is_empty [] = true
is_empty (_ ∷ _) = false

abbrev pub band_of : FinalScore → ℕ
band_of f = f.band

-- `self_consistency_reconciliation`
unfoldable pub self_consistency_reconciliation : JudgeOutput → JudgeOutput → ℕ → Reconciliation
unfolding collect_all overall
self_consistency_reconciliation pass_1 pass_2 threshold =
    let t =
      collect_all threshold pass_1.criterion_scores pass_2.criterion_scores criterion_order
        nothing_yet in
    record {
      final_scores = t.scores;
      overall_band = overall (map band_of t.scores);
      flag_for_human_review = not (is_empty t.flagged);
      flagged_criteria = t.flagged;
      band_diffs = t.diffs;
    }
