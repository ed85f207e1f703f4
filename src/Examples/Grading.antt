-- ===== src/Examples/Grading.antt =====
-- The grading of a session, tried on concrete inputs.
use session_replica_ielt.Prelude.{
  ℕ, ◌≤◌, ◌≡◌, ◌≢◌, refl, some, none, Option, String, List, [], ◌∷◌, arith, map, round_ratio, All,
  length, ◌==◌, if◌then◌else◌,
}
use session_replica_ielt.Worker.Judge
use session_replica_ielt.Worker.Judge.{Criterion, CriterionScore, JudgeOutput}
use session_replica_ielt.Worker.Reconciliation.{
  self_consistency_reconciliation, score_of, FinalScore, final_score, collect_all, collect,
}
use session_replica_ielt.Worker.Reconciliation.Review.{needs_review, is_flagged, flagged_exactly}
use session_replica_ielt.Worker.Jobs
use session_replica_ielt.Worker.Jobs.{
  TurnBoundary, GradingJob, JobResult, swept, media, Ended, returned, raised, load_result, find_job,
  deliver,
}
use session_replica_ielt.Worker.Jobs.Runs.{deliver_all, deliver_all-load_result}
use session_replica_ielt.Worker.Media
use session_replica_ielt.Worker.Media.{AudioSegment, Fetched, pcm16, finalize_media_body}
use session_replica_ielt.Worker.Media.Boundaries.{
  Contiguous, turn_of, turn_of_segment, finalize_media_boundaries,
}
use session_replica_ielt.Worker.Asr
use session_replica_ielt.Worker.Asr.{
  WordResult, Transcript, turn_id_for_offset, persist_words, rows_from,
}
use session_replica_ielt.Worker.Asr.Attribution.{TurnAt, turn_id_for_offset_inside}
use session_replica_ielt.Worker.Asr.Numbering.{Increasing, rows_of, persist_words_replaces}
use session_replica_ielt.Worker.Utterances.{TranscriptWord, segment_into_utterances}
use session_replica_ielt.Worker.Utterances.Segments.{concat, segment_into_utterances-concat}
use session_replica_ielt.Worker.Scoring.{JudgeInput}

abbrev score : Criterion → ℕ → CriterionScore
score c band = record {
  criterion = c;
  band = band;
  justification = "steady";
  evidence_features = [];
  confidence = 800;
}

abbrev judged : ℕ → ℕ → JudgeOutput
judged fluency lexical = record {
  criterion_scores =
      score Judge.fluency_coherence fluency ∷ score Judge.lexical_resource lexical ∷ [];
  overall_band = 12;
  flags = [];
}

flagged_exactly_example :
    is_flagged Judge.lexical_resource
      (self_consistency_reconciliation (judged 12 10) (judged 13 14) 2).flagged_criteria
    ≡ needs_review 2
        (some (score Judge.lexical_resource 10))
        (some (score Judge.lexical_resource 14))
unfolding score_of
flagged_exactly_example = flagged_exactly (judged 12 10) (judged 13 14) 2 Judge.lexical_resource

abbrev two_scores : List FinalScore
two_scores = (self_consistency_reconciliation (judged 12 10) (judged 13 14) 2).final_scores

listed_scores :
    two_scores
    ≡ final_score Judge.fluency_coherence
        (score Judge.fluency_coherence 12)
        (score Judge.fluency_coherence 13)
      ∷ final_score Judge.lexical_resource
          (score Judge.lexical_resource 10)
          (score Judge.lexical_resource 14)
      ∷ []
unfolding self_consistency_reconciliation collect_all collect score_of
listed_scores = refl

in_bounds : All (λ x. 10 ≤ x.band × x.band ≤ 14) two_scores
unfolding self_consistency_reconciliation collect_all collect score_of final_score round_ratio
in_bounds = ((omega arith, omega arith), ((omega arith, omega arith), tt))

abbrev runs : List Ended
runs = raised "no broker" ∷ returned (swept 3 "a") ∷ raised "timeout" ∷ []

deliver_all-load_result_example :
    load_result 1 "sweep" (deliver_all 100 1 "sweep" runs []) ≡ some (swept 3 "a")
unfolding load_result find_job
deliver_all-load_result_example = deliver_all-load_result 100 1 "sweep" runs []

abbrev segments : List AudioSegment
segments =
    record { turn_id = 5; storage_key = "five" } ∷ record { turn_id = 6; storage_key = "six" } ∷ []

abbrev millisecond : List ℕ
millisecond =
    0 ∷ 0 ∷ 0 ∷ 0 ∷ 0 ∷ 0 ∷ 0 ∷ 0 ∷ 0 ∷ 0 ∷ 0 ∷ 0 ∷ 0 ∷ 0 ∷ 0 ∷ 0 ∷ 0 ∷ 0 ∷ 0 ∷ 0 ∷ 0 ∷ 0 ∷ 0 ∷ 0
    ∷ 0 ∷ 0 ∷ 0 ∷ 0 ∷ 0 ∷ 0 ∷ 0 ∷ 0 ∷ []

abbrev get_object : String → Fetched
get_object key = pcm16 millisecond

abbrev put_flac : List ℕ → Option String
put_flac samples = none

abbrev boundary : ℕ → ℕ → ℕ → TurnBoundary
boundary turn_id start_ms end_ms = record {
  turn_id = turn_id;
  start_ms = start_ms;
  end_ms = end_ms;
}

abbrev boundaries : List TurnBoundary
boundaries = boundary 5 0 1 ∷ boundary 6 1 2 ∷ []

finalized :
    finalize_media_body get_object put_flac "canonical" segments
    ≡ returned (media "canonical" boundaries 2 2)
unfolding finalize_media_body Media.stitch Media.store_canonical Media.append_segment
    Media.duration_ms_of round_ratio
finalized = refl

finalize_media_boundaries_example :
    Contiguous 0 boundaries 2
    × (map turn_of boundaries ≡ map turn_of_segment segments)
    × (2 ≡ length segments)
finalize_media_boundaries_example =
    finalize_media_boundaries get_object put_flac "canonical" "canonical" segments finalized

turn_id_for_offset_inside_example :
    (turn_id : ℕ) × (turn_id_for_offset boundaries 1 ≡ some turn_id) × TurnAt boundaries 1 turn_id
turn_id_for_offset_inside_example =
    turn_id_for_offset_inside boundaries 2 1 (refl, omega arith, (refl, omega arith, refl))
      (omega arith)

abbrev spoken : ℕ → String → WordResult
spoken start_ms word = record {
  word = word;
  start_ms = start_ms;
  end_ms = start_ms;
  confidence = 900;
  source = "deepgram";
}

abbrev said : List WordResult
said = spoken 0 "well" ∷ spoken 0 "yes" ∷ spoken 1 "no" ∷ []

abbrev stored : List Transcript
stored =
    Asr.transcript_row 1 5 0 (spoken 0 "well")
    ∷ Asr.transcript_row 1 5 1 (spoken 0 "yes")
    ∷ Asr.transcript_row 1 6 0 (spoken 1 "no")
    ∷ []

persisted : persist_words 1 boundaries said [] ≡ some stored
unfolding persist_words rows_from Asr.replace_rows Asr.turn_id_for_offset Asr.find_turn Asr.seq_of
persisted = refl

persist_words_replaces_example :
    (some (rows_of 1 stored) ≡ rows_from 1 boundaries [] said)
    × Increasing (rows_of 1 stored)
    × ((other : ℕ) → other ≢ 1 → rows_of other stored ≡ rows_of other [])
persist_words_replaces_example = persist_words_replaces 1 boundaries said [] persisted

abbrev words : List TranscriptWord
words =
    record { turn_id = 5; seq = 0; word = "well"; start_ms = 0; end_ms = 300 }
    ∷ record { turn_id = 5; seq = 1; word = "yes"; start_ms = 1000; end_ms = 1200 }
    ∷ []

segment_into_utterances-concat_example : concat (segment_into_utterances 600 words) ≡ words
segment_into_utterances-concat_example = segment_into_utterances-concat 600 words

abbrev evidence : JudgeInput
evidence = record {
  session_id = 1;
  candidate_display_name = "Anna";
  phases = [];
  session_aggregate = [];
  rubric_reference = "Band 9";
  feature_status = [];
}

abbrev passes : ℕ → JudgeInput → Option JudgeOutput
passes pass input = if pass == 1 then some (judged 12 10) else some (judged 13 14)
