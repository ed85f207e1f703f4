-- ===== src/Worker/Calibration/Corpus.antt =====
-- apps/worker/calibration_corpus.py: the benchmark cases, and the judge that plays their two passes.
-- Bands are in half bands, confidences in thousandths.
use session_replica_ielt.Prelude.{
  ℕ, ◌+◌, ◌==◌, String, str_eq, Bool, true, false, Option, none, some, List, [], ◌∷◌, map, length,
  any, if◌then◌else◌, round_ratio,
}
use session_replica_ielt.Worker.Judge
use session_replica_ielt.Worker.Judge.{Criterion, criterion_order, CriterionScore, JudgeOutput}
use session_replica_ielt.Worker.Reconciliation.{sum}

-- A dict of bands that `_require_all_criteria` passed: those of the criteria, and of any other key.
pub record Bands : Type 0 where
  pub band : Criterion → ℕ
  pub others : List ℕ

-- `sum(bands.values())`, `len(bands)`
abbrev pub values : Bands → List ℕ
values b =
    b.band Judge.fluency_coherence
    ∷ b.band Judge.lexical_resource
    ∷ b.band Judge.grammatical_range_accuracy
    ∷ b.band Judge.pronunciation
    ∷ b.others

-- `class BenchmarkCase`, with what the calibration reads. The session's id is a function of the
-- case's.
pub record BenchmarkCase : Type 0 where
  pub case_id : String
  pub session_id : ℕ
  pub human_scores : Bands
  pub simulated_pass_1 : Bands
  pub simulated_pass_2 : Bands
  pub asr_word_confidence : Option ℕ
  pub pronunciation_confidence : Option ℕ

-- `len(case_ids) != len(set(case_ids))`
unfoldable pub has_duplicates : List BenchmarkCase → Bool
has_duplicates [] = false
has_duplicates (c ∷ cases) =
    if any (λ d. str_eq d.case_id c.case_id) cases then true else has_duplicates cases

-- The end of `load_benchmark_corpus`; `none` is its ValueError.
unfoldable pub load_benchmark_corpus : List BenchmarkCase → Option (List BenchmarkCase)
unfolding has_duplicates
load_benchmark_corpus cases = if has_duplicates cases then none else some cases

-- `self._by_session[session_id]`: a later case takes the place of an earlier one.
unfoldable pub find_case : ℕ → List BenchmarkCase → Option BenchmarkCase
find_case i [] = none
find_case i (c ∷ cases) = elim (find_case i cases) [
  | some d ↦ some d
  | none ↦ if c.session_id == i then some c else none
]

-- `_call_counts`, its newest entries first.
abbrev pub CallCounts : Type 0
CallCounts = List (ℕ × ℕ)

-- `self._call_counts.get(session_id, 0)`
unfoldable pub calls_of : ℕ → CallCounts → ℕ
calls_of i [] = 0
calls_of i ((j, n) ∷ counts) = if j == i then n else calls_of i counts

unfoldable pub scripted_score : Bands → Criterion → CriterionScore
scripted_score bands criterion = record {
  criterion = criterion;
  band = bands.band criterion;
  justification = "Scripted calibration pass";
  evidence_features = [];
  confidence = 900;
}

unfoldable pub scripted_output : Bands → JudgeOutput
unfolding scripted_score
scripted_output bands = record {
  criterion_scores = map (scripted_score bands) criterion_order;
  overall_band = round_ratio (sum (values bands)) (length (values bands));
  flags = [];
}

abbrev pub pass_bands : ℕ → BenchmarkCase → Bands
pass_bands call_index case =
    if call_index == 0 then case.simulated_pass_1 else case.simulated_pass_2

-- `CorpusScriptedScoringLLM.score`, for the session of the input; `none` is a KeyError.
unfoldable pub scripted_llm : List BenchmarkCase → ℕ → CallCounts → Option JudgeOutput × CallCounts
unfolding find_case calls_of scripted_output
scripted_llm corpus session_id counts = elim (find_case session_id corpus) [
  | none ↦ (none, counts)
  | some case ↦ (
    some (scripted_output (pass_bands (calls_of session_id counts) case)),
    (session_id, calls_of session_id counts + 1) ∷ counts,
  )
]
