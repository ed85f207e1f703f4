-- ===== src/Worker/Scoring.antt =====
-- apps/worker/tasks/scoring.py, feature_vectors.py and band_score_reports.py: the evidence for the
-- judge, its two passes, and the report. The judge is a parameter. A feature vector's contents are
-- a text.
pub mod Reports
use session_replica_ielt.Prelude.{
  ℕ, String, Bool, true, false, ◌&&◌, Option, none, some, List, [], ◌∷◌, ◌++◌, ◌==◌, str_eq,
  if◌then◌else◌, map, length,
}
use session_replica_ielt.Worker.Judge
use session_replica_ielt.Worker.Judge.{Criterion, criterion_order, same_criterion, JudgeOutput}
use session_replica_ielt.Worker.Reconciliation.{Reconciliation, self_consistency_reconciliation}
use session_replica_ielt.Worker.Jobs.{
  GradingJob, JobResult, scores, Ended, returned, raised, deliver,
}
use session_replica_ielt.Worker.Utterances
use session_replica_ielt.Worker.Utterances.{Bucket}

-- `PHASES`: the parts, and the whole session.
pub data Scope : Type 0 where
  part : Bucket → Scope
  session : Scope

abbrev pub scope_index : Scope → ℕ
scope_index (part Utterances.part1) = 1
scope_index (part Utterances.part2) = 2
scope_index (part Utterances.part3) = 3
scope_index session = 0

pub record FeatureVector : Type 0 where
  pub session_id : ℕ
  pub criterion : Criterion
  pub phase : Scope
  pub features : String

abbrev pub is_vector : ℕ → Criterion → Scope → FeatureVector → Bool
is_vector s c p v =
    (v.session_id == s) && same_criterion v.criterion c && (scope_index v.phase == scope_index p)

unfoldable pub find_vector : ℕ → Criterion → Scope → List FeatureVector → Option String
find_vector s c p [] = none
find_vector s c p (v ∷ vs) = if is_vector s c p v then some v.features else find_vector s c p vs

-- `write_feature_vector`: an upsert. Its tests of the criterion and the phase hold by their types.
unfoldable pub write_feature_vector :
    ℕ → Criterion → Scope → String → List FeatureVector → List FeatureVector
write_feature_vector s c p features [] =
    record { session_id = s; criterion = c; phase = p; features = features } ∷ []
write_feature_vector s c p features (v ∷ vs) =
    if is_vector s c p v
    then record v { features = features } ∷ vs
    else v ∷ write_feature_vector s c p features vs

pub record PhaseEvidence : Type 0 where
  pub phase : Bucket
  pub words : List String
  pub features : List (Criterion × Option String)

pub data FeatureStatus : Type 0 where
  available missing : FeatureStatus

pub record JudgeInput : Type 0 where
  pub session_id : ℕ
  pub candidate_display_name : String
  pub phases : List PhaseEvidence
  pub session_aggregate : List (Criterion × Option String)
  pub rubric_reference : String
  pub feature_status : List (Criterion × FeatureStatus)

abbrev pub status_of : Option String → FeatureStatus
status_of (some features) = available
status_of none = missing

-- The four vectors of a part or of the session; `none` is the `{}` of a vector that is not there.
abbrev pub vectors : ℕ → Scope → List FeatureVector → List (Criterion × Option String)
vectors s p fv = map (λ c. (c, find_vector s c p fv)) criterion_order

abbrev pub evidence_for :
    Bucket → List String → List (Criterion × Option String) → List PhaseEvidence
evidence_for b [] features = []
evidence_for b (w ∷ ws) features = record { phase = b; words = w ∷ ws; features = features } ∷ []

-- The loop over `PHASE_BUCKET_ORDER`: a part without words is left out.
unfoldable pub phases_of :
    ℕ → (Bucket → List String) → List FeatureVector → List Bucket → List PhaseEvidence
phases_of s words fv [] = []
phases_of s words fv (b ∷ bs) =
    evidence_for b (words b) (vectors s (part b) fv) ++ phases_of s words fv bs

-- `_build_judge_input`, given the candidate's name and the rubric, or the error of their loads.
unfoldable pub build_judge_input :
    ℕ
    → (Bucket → List String)
    → List FeatureVector
    → Option String
    → Option String
    → Option JudgeInput
unfolding phases_of find_vector
build_judge_input s words fv (some name) (some rubric) = some (record {
  session_id = s;
  candidate_display_name = name;
  phases = phases_of s words fv (Utterances.part1 ∷ Utterances.part2 ∷ Utterances.part3 ∷ []);
  session_aggregate = vectors s session fv;
  rubric_reference = rubric;
  feature_status = map (λ c. (c, status_of (find_vector s c session fv))) criterion_order;
})
build_judge_input s words fv _ _ = none

pub record BandScoreReport : Type 0 where
  pub session_id : ℕ
  pub judge_input : JudgeInput
  pub judge_pass_1 : JudgeOutput
  pub judge_pass_2 : JudgeOutput
  pub reconciliation : Reconciliation
  pub overall_band : ℕ
  pub flag_for_human_review : Bool

unfoldable pub find_report : ℕ → List BandScoreReport → Option BandScoreReport
find_report s [] = none
find_report s (r ∷ rs) = if r.session_id == s then some r else find_report s rs

-- `write_band_score_report`: an upsert by the session.
unfoldable pub write_band_score_report :
    BandScoreReport → List BandScoreReport → List BandScoreReport
write_band_score_report new [] = new ∷ []
write_band_score_report new (r ∷ rs) =
    if r.session_id == new.session_id then new ∷ rs else r ∷ write_band_score_report new rs

abbrev pub report_of : JudgeInput → JudgeOutput → JudgeOutput → Reconciliation → BandScoreReport
report_of input pass_1 pass_2 r = record {
  session_id = input.session_id;
  judge_input = input;
  judge_pass_1 = pass_1;
  judge_pass_2 = pass_2;
  reconciliation = r;
  overall_band = r.overall_band;
  flag_for_human_review = r.flag_for_human_review;
}

-- The two passes of the judge, which may fail; the number tells them apart.
unfoldable pub judge_twice :
    (ℕ → JudgeInput → Option JudgeOutput)
    → ℕ
    → JudgeInput
    → List BandScoreReport
    → Ended × List BandScoreReport
unfolding write_band_score_report
judge_twice score threshold input reports = elim (score 1 input) [
  | none ↦ (raised "judge failed", reports)
  | some pass_1 ↦ elim (score 2 input) [
    | none ↦ (raised "judge failed", reports)
    | some pass_2 ↦
        let r = self_consistency_reconciliation pass_1 pass_2 threshold in
        (
          returned (scores r.overall_band r.flag_for_human_review),
          write_band_score_report (report_of input pass_1 pass_2 r) reports,
        )
  ]
]

-- The body of `synthesize_band_scores`.
unfoldable pub synthesize_body :
    (ℕ → JudgeInput → Option JudgeOutput)
    → ℕ
    → Option JudgeInput
    → List BandScoreReport
    → Ended × List BandScoreReport
unfolding judge_twice
synthesize_body score threshold none reports = (raised "no judge input", reports)
synthesize_body score threshold (some input) reports = judge_twice score threshold input reports

-- The tables of a scoring run.
pub record ScoringTables : Type 0 where
  pub grading_jobs : List GradingJob
  pub reports : List BandScoreReport

-- `synthesize_band_scores`
unfoldable pub synthesize_band_scores :
    (ℕ → JudgeInput → Option JudgeOutput)
    → ℕ
    → Option JudgeInput
    → ℕ
    → ℕ
    → ScoringTables
    → ScoringTables
unfolding synthesize_body
synthesize_band_scores score threshold input now session_id t =
    let (ended, reports) = synthesize_body score threshold input t.reports in
    record {
      grading_jobs = deliver now session_id "synthesize_band_scores" ended t.grading_jobs;
      reports = reports;
    }
