-- ===== src/Worker/Calibration/Report.antt =====
-- apps/worker/calibration_report.py: the judge is run twice over each case of a corpus, and its
-- bands are compared with the human ones. The judge is a state action
-- on the case, of which its input is a function.
use session_replica_ielt.Prelude.{
  ℕ, ltb, String, Bool, false, Option, none, some, List, [], ◌∷◌, ◌++◌, map, length, select,
  if◌then◌else◌, round_ratio,
}
use session_replica_ielt.Worker.Judge.{Criterion, criterion_order, same_criterion, JudgeOutput}
use session_replica_ielt.Worker.Reconciliation.{
  FinalScore, Reconciliation, self_consistency_reconciliation, sum,
}
use session_replica_ielt.Worker.Lexical.Diversity.{Ratio}
use session_replica_ielt.Worker.Calibration.Metrics.{
  mean_absolute_error, mean_squared_error, agreement_rate, Correlation, pearson_correlation, Kappa,
  quadratic_weighted_kappa,
}
use session_replica_ielt.Worker.Calibration.Corpus.{BenchmarkCase, values}

-- `class CalibrationConfig`, with what is read here.
pub record CalibrationConfig : Type 0 where
  pub reconciliation_threshold : ℕ
  pub transcription_confidence_floor : ℕ
  pub pronunciation_confidence_floor : ℕ

abbrev pub is_below : ℕ → Option ℕ → Bool
is_below floor none = false
is_below floor (some confidence) = ltb confidence floor

-- `fallback_gating_dry_run`
pub record FallbackGating : Type 0 where
  pub asr_fallback_triggered_case_ids : List String
  pub pronunciation_fallback_triggered_case_ids : List String

abbrev pub case_id_of : BenchmarkCase → String
case_id_of c = c.case_id

unfoldable pub fallback_gating_dry_run : List BenchmarkCase → CalibrationConfig → FallbackGating
fallback_gating_dry_run corpus config = record {
  asr_fallback_triggered_case_ids =
      map case_id_of
        (select (λ c. is_below config.transcription_confidence_floor c.asr_word_confidence) corpus);
  pronunciation_fallback_triggered_case_ids = map case_id_of (
      select (λ c. is_below config.pronunciation_confidence_floor c.pronunciation_confidence)
        corpus);
}

abbrev pub CaseResult : Type 0
CaseResult = BenchmarkCase × Reconciliation

abbrev pub and_result : CaseResult → Option (List CaseResult) → Option (List CaseResult)
and_result r none = none
and_result r (some results) = some (r ∷ results)

-- After the second pass, and after the first.
unfoldable pub after_second :
    {S : Type 0} → ℕ → JudgeOutput → Option JudgeOutput × S → Option Reconciliation × S
after_second threshold pass_1 (none, s) = (none, s)
after_second threshold pass_1 (some pass_2, s) =
    (some (self_consistency_reconciliation pass_1 pass_2 threshold), s)

unfoldable pub after_first :
    {S : Type 0}
    → ℕ
    → (S → Option JudgeOutput × S)
    → Option JudgeOutput × S
    → Option Reconciliation × S
unfolding after_second
after_first threshold again (none, s) = (none, s)
after_first threshold again (some pass_1, s) = after_second threshold pass_1 (again s)

-- After a case, with the rest of the loop.
unfoldable pub after_case :
    {S : Type 0}
    → BenchmarkCase
    → (S → Option (List CaseResult))
    → Option Reconciliation × S
    → Option (List CaseResult)
after_case case rest (none, s) = none
after_case case rest (some reconciliation, s) = and_result (case, reconciliation) (rest s)

module _ {S : Type 0} (score : BenchmarkCase → S → Option JudgeOutput × S) (threshold : ℕ) where
  -- The two passes over a case; `none` is an exception of the judge.
  unfoldable pub two_passes : BenchmarkCase → S → Option Reconciliation × S
  unfolding after_first
  two_passes case s = after_first threshold (score case) (score case s)

  -- The first loop of `run_calibration`.
  unfoldable pub score_cases : List BenchmarkCase → S → Option (List CaseResult)
  unfolding two_passes after_case
  score_cases [] s = some []
  score_cases (case ∷ cases) s = after_case case (score_cases cases) (two_passes case s)

-- `next((s for s in final_scores if s["criterion"] == criterion), None)`
unfoldable pub final_of : Criterion → List FinalScore → Option FinalScore
final_of c [] = none
final_of c (s ∷ scores) = if same_criterion s.criterion c then some s else final_of c scores

abbrev pub compared : Option FinalScore → ℕ → List (ℕ × ℕ)
compared none gold = []
compared (some final) gold = (final.band, gold) ∷ []

-- `preds` and `golds` of a criterion.
unfoldable pub pairs_of : Criterion → List CaseResult → List (ℕ × ℕ)
unfolding final_of
pairs_of c [] = []
pairs_of c ((case, r) ∷ results) =
    compared (final_of c r.final_scores) (case.human_scores.band c) ++ pairs_of c results

-- `overall_preds` and `overall_golds`
unfoldable pub overall_pairs : List CaseResult → List (ℕ × ℕ)
overall_pairs [] = []
overall_pairs ((case, r) ∷ results) =
    (
      r.overall_band,
      round_ratio (sum (values case.human_scores)) (length (values case.human_scores)),
    )
    ∷ overall_pairs results

-- `class CriterionMetrics`; the rank correlation is left out.
pub record CriterionMetrics : Type 0 where
  pub n : ℕ
  pub mae : Ratio
  pub mse : Ratio
  pub exact_agreement_rate : Ratio
  pub adjacent_agreement_rate_0_5 : Ratio
  pub adjacent_agreement_rate_1_0 : Ratio
  pub pearson_r : Option Correlation
  pub kappa : Option Kappa

-- `_compute_criterion_metrics`
unfoldable pub compute_criterion_metrics : List (ℕ × ℕ) → CriterionMetrics
compute_criterion_metrics pairs = record {
  n = length pairs;
  mae = mean_absolute_error pairs;
  mse = mean_squared_error pairs;
  exact_agreement_rate = agreement_rate 0 pairs;
  adjacent_agreement_rate_0_5 = agreement_rate 1 pairs;
  adjacent_agreement_rate_1_0 = agreement_rate 2 pairs;
  pearson_r = pearson_correlation pairs;
  kappa = quadratic_weighted_kappa pairs;
}

pub record CalibrationReport : Type 0 where
  pub corpus_size : ℕ
  pub criterion_metrics : List (Criterion × CriterionMetrics)
  pub overall_band_metrics : CriterionMetrics
  pub flagged_for_human_review_count : ℕ
  pub fallback_gating : FallbackGating
  pub per_case : List CaseResult

abbrev pub is_flagged_case : CaseResult → Bool
is_flagged_case (case, r) = r.flag_for_human_review

unfoldable pub report_of :
    List BenchmarkCase → CalibrationConfig → List CaseResult → CalibrationReport
unfolding pairs_of overall_pairs compute_criterion_metrics fallback_gating_dry_run
report_of corpus config results = record {
  corpus_size = length corpus;
  criterion_metrics =
      map (λ c. (c, compute_criterion_metrics (pairs_of c results))) criterion_order;
  overall_band_metrics = compute_criterion_metrics (overall_pairs results);
  flagged_for_human_review_count = length (select is_flagged_case results);
  fallback_gating = fallback_gating_dry_run corpus config;
  per_case = results;
}

-- `run_calibration`; `none` is an exception of the judge.
unfoldable pub run_calibration :
    {S : Type 0}
    → (BenchmarkCase → S → Option JudgeOutput × S)
    → CalibrationConfig
    → List BenchmarkCase
    → S
    → Option CalibrationReport
unfolding score_cases report_of
run_calibration score config corpus s =
    elim (score_cases score config.reconciliation_threshold corpus s) [
      | none ↦ none
      | some results ↦ some (report_of corpus config results)
    ]
