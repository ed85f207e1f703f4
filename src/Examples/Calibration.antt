-- ===== src/Examples/Calibration.antt =====
-- The pronunciation scores and the calibration of the judge, tried on concrete inputs.
use session_replica_ielt.Prelude.{
  ℕ, ◌+◌, ◌*◌, ◌≡◌, refl, ◌==◌, ◌↔◌, ◌⊎◌, true, false, String, Option, none, some, List, [], ◌∷◌,
  if◌then◌else◌,
}
use session_replica_ielt.Prelude.Text.{Word}
use session_replica_ielt.Fsm
use session_replica_ielt.Worker.Judge
use session_replica_ielt.Worker.Transcription.{Call, answered, refused}
use session_replica_ielt.Worker.Utterances.{Bucket}
use session_replica_ielt.Worker.Scoring.{part, session, find_vector}
use session_replica_ielt.Worker.Pronunciation.Segments.{PronunciationAssessment, TurnSegment}
use session_replica_ielt.Worker.Pronunciation.Scores.{
  Prosody, Score, Aggregate, aggregate, provenance, scores_of,
}
use session_replica_ielt.Worker.Pronunciation.Means.{
  scored, after, compute_pronunciation_scores_all_or_nothing,
}
use session_replica_ielt.Worker.Calibration.Metrics.{
  Kappa, sum_pairs, squared_distance, classes, quadratic_weighted_kappa,
}
use session_replica_ielt.Worker.Calibration.Kappa.{
  SameClasses, quadratic_weighted_kappa_disagreement,
}
use session_replica_ielt.Worker.Calibration.Corpus.{Bands, BenchmarkCase}
use session_replica_ielt.Worker.Calibration.Report.{CalibrationConfig}

abbrev clear : PronunciationAssessment
clear = record {
  accuracy = 81000;
  fluency = 77000;
  completeness = 95000;
  prosody = 70000;
  confidence = 850;
}

abbrev fetch : String → Option (List ℕ)
fetch key = some (1 ∷ 2 ∷ [])

abbrev measured : List ℕ → Option Prosody
measured audio =
    some (record { pitch_range_hz = 90000; stress_timing_regularity = 950; low_snr_flag = false })

abbrev azure : List ℕ → Word → Call PronunciationAssessment
azure audio text = answered clear

abbrev gop : List ℕ → Word → Call PronunciationAssessment
gop audio text = refused

abbrev encode : Aggregate → List (ℕ × String × ℕ) → String
encode a p = if a.segment_count == 0 then "silent" else "scored"

abbrev turns : List TurnSegment
turns =
    record { session_id = 7; turn_id = 1; exam_phase = some Fsm.part1_topic_a; storage_key = "a" }
    ∷ record {
      session_id = 7;
      turn_id = 2;
      exam_phase = some Fsm.part2_long_turn;
      storage_key = "b";
    }
    ∷ []

compute_pronunciation_scores_all_or_nothing_example :
    ((scored 700 fetch measured azure gop encode 7 turns [] [] ≡ none)
      × (after 700 fetch measured azure gop encode 7 turns [] [] ≡ (false, [])))
    ⊎ ((scores : List Score) × (scored 700 fetch measured azure gop encode 7 turns [] []
          ≡ some scores)
        × ((after 700 fetch measured azure gop encode 7 turns [] []).0 ≡ true)
        × ((b : Bucket)
            → find_vector 7 Judge.pronunciation
                (part b)
                (after 700 fetch measured azure gop encode 7 turns [] []).1
              ≡ some (encode (aggregate (scores_of b scores)) (provenance (scores_of b scores))))
        × (find_vector 7 Judge.pronunciation session
              (after 700 fetch measured azure gop encode 7 turns [] []).1
            ≡ some (encode (aggregate scores) (provenance scores))))
compute_pronunciation_scores_all_or_nothing_example =
    compute_pronunciation_scores_all_or_nothing 700 fetch measured azure gop encode 7 turns [] []

-- Two pairs of bands, 6.0 against 6.5 and 7.0 against 7.0.
abbrev pairs : List (ℕ × ℕ)
pairs = (14, 14) ∷ []

abbrev kappa : Kappa
kappa = record { disagreement = 2; expected = 6 }

pairs_kappa : quadratic_weighted_kappa ((12, 13) ∷ pairs) ≡ some kappa
unfolding quadratic_weighted_kappa
pairs_kappa = refl

quadratic_weighted_kappa_disagreement_example :
    (kappa.disagreement ≡ 2 * sum_pairs squared_distance (classes ((12, 13) ∷ pairs)))
    × ((kappa.disagreement ≡ 0) ↔ SameClasses ((12, 13) ∷ pairs))
quadratic_weighted_kappa_disagreement_example =
    quadratic_weighted_kappa_disagreement (12, 13) pairs pairs_kappa

abbrev bands : ℕ → Bands
bands n = record { band = λ c. n; others = [] }

abbrev benchmark : String → ℕ → ℕ → BenchmarkCase
benchmark name id n = record {
  case_id = name;
  session_id = id;
  human_scores = bands n;
  simulated_pass_1 = bands (n + 1);
  simulated_pass_2 = bands n;
  asr_word_confidence = some 500;
  pronunciation_confidence = none;
}

abbrev corpus : List BenchmarkCase
corpus = benchmark "low" 1 8 ∷ benchmark "high" 2 16 ∷ []

abbrev config : CalibrationConfig
config = record {
  reconciliation_threshold = 2;
  transcription_confidence_floor = 600;
  pronunciation_confidence_floor = 700;
}
