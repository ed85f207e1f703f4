-- ===== src/Worker/Judge.antt =====
-- The judge's answer, apps/worker/providers/scoring_llm.py, and the criteria of
-- apps/worker/rubric_assets.py. A band is counted in half bands, the increments that the schema
-- names, and a confidence in thousandths.
use session_replica_ielt.Prelude.{ℕ, String, Bool, List, [], ◌∷◌, ◌==◌}

pub data Criterion : Type 0 where
  fluency_coherence lexical_resource grammatical_range_accuracy pronunciation : Criterion

-- `CRITERION_ORDER`
abbrev pub criterion_order : List Criterion
criterion_order =
    fluency_coherence ∷ lexical_resource ∷ grammatical_range_accuracy ∷ pronunciation ∷ []

abbrev pub index : Criterion → ℕ
index fluency_coherence = 0
index lexical_resource = 1
index grammatical_range_accuracy = 2
index pronunciation = 3

abbrev pub same_criterion : Criterion → Criterion → Bool
same_criterion a b = index a == index b

pub record CriterionScore : Type 0 where
  pub criterion : Criterion
  pub band : ℕ
  pub justification : String
  pub evidence_features : List String
  pub confidence : ℕ

pub record JudgeOutput : Type 0 where
  pub criterion_scores : List CriterionScore
  pub overall_band : ℕ
  pub flags : List String
