-- ===== src/Worker/Pronunciation/Scores.antt =====
-- apps/worker/tasks/pronunciation.py: the turns are scored, and the scores averaged. The vendors, the
-- store and the prosody measurement, which is that of an audio library, are parameters. Scores are
-- in thousandths, means in hundredths.
use session_replica_ielt.Prelude.{
  ℕ, ◌+◌, ◌*◌, Bool, true, false, String, Option, none, some, List, [], ◌∷◌, map, length, select,
  round_ratio,
}
use session_replica_ielt.Prelude.Text.{Word}
use session_replica_ielt.Worker.Judge
use session_replica_ielt.Worker.Asr.{Transcript}
use session_replica_ielt.Worker.Transcription.{Call, answered}
use session_replica_ielt.Worker.Utterances.{Bucket, same_bucket}
use session_replica_ielt.Worker.Scoring.{part, session, FeatureVector, write_feature_vector}
use session_replica_ielt.Worker.Features.{bucket_order}
use session_replica_ielt.Worker.Pronunciation.Segments.{
  PronunciationAssessment, assess_with_fallback, TurnSegment, Scoreable, load_scoreable_segments,
}

-- What `prosody_proxy` returns.
pub record Prosody : Type 0 where
  pub pitch_range_hz : ℕ
  pub stress_timing_regularity : ℕ
  pub low_snr_flag : Bool

pub record Score : Type 0 where
  pub turn_id : ℕ
  pub phase : Bucket
  pub accuracy : ℕ
  pub fluency : ℕ
  pub completeness : ℕ
  pub prosody_vendor_score : ℕ
  pub pitch_range_hz : ℕ
  pub stress_timing_regularity : ℕ
  pub confidence : ℕ
  pub source : String

pub record Aggregate : Type 0 where
  pub accuracy : ℕ
  pub fluency : ℕ
  pub completeness : ℕ
  pub prosody_vendor_score : ℕ
  pub pitch_range_hz : ℕ
  pub stress_timing_regularity : ℕ
  pub segment_count : ℕ

-- `sum(s[...] for s in scores)`
abbrev pub sum_of : (Score → ℕ) → List Score → ℕ
sum_of f [] = 0
sum_of f (s ∷ scores) = f s + sum_of f scores

-- `round(sum(...) / n, 2)`; 0.0 for no scores, as in `_empty_aggregate`.
unfoldable pub mean : (Score → ℕ) → List Score → ℕ
mean f [] = 0
mean f (s ∷ scores) = round_ratio (sum_of f (s ∷ scores)) (10 * length (s ∷ scores))

-- `_aggregate`
unfoldable pub aggregate : List Score → Aggregate
unfolding mean
aggregate scores = record {
  accuracy = mean (λ s. s.accuracy) scores;
  fluency = mean (λ s. s.fluency) scores;
  completeness = mean (λ s. s.completeness) scores;
  prosody_vendor_score = mean (λ s. s.prosody_vendor_score) scores;
  pitch_range_hz = mean (λ s. s.pitch_range_hz) scores;
  stress_timing_regularity = mean (λ s. s.stress_timing_regularity) scores;
  segment_count = length scores;
}

-- `_provenance`
abbrev pub provenance : List Score → List (ℕ × String × ℕ)
provenance scores = map (λ s. (s.turn_id, s.source, s.confidence)) scores

abbrev pub scores_of : Bucket → List Score → List Score
scores_of b scores = select (λ s. same_bucket b (some s.phase)) scores

module _ (floor : ℕ) (fetch : String → Option (List ℕ)) (prosody_proxy : List ℕ → Option Prosody)
    (primary fallback : List ℕ → Word → Call PronunciationAssessment)
    (encode : Aggregate → List (ℕ × String × ℕ) → String) where
  abbrev pub score_of_call :
      Scoreable → Prosody → Call (PronunciationAssessment × String) → Option Score
  score_of_call seg p (answered (a, source)) = some (record {
    turn_id = seg.turn_id;
    phase = seg.phase;
    accuracy = a.accuracy;
    fluency = a.fluency;
    completeness = a.completeness;
    prosody_vendor_score = a.prosody;
    pitch_range_hz = p.pitch_range_hz;
    stress_timing_regularity = p.stress_timing_regularity;
    confidence = a.confidence;
    source = source;
  })
  score_of_call seg p _ = none

  -- `_score_segment`; `none` is an exception.
  unfoldable pub score_segment : Scoreable → Option Score
  unfolding assess_with_fallback
  score_segment seg = elim (fetch seg.storage_key) [
    | none ↦ none
    | some audio ↦ elim (prosody_proxy audio) [
      | none ↦ none
      | some p ↦ score_of_call seg p (
          assess_with_fallback floor p.low_snr_flag (primary audio seg.reference_text)
            (fallback audio seg.reference_text))
    ]
  ]

  abbrev pub and_scores : Option Score → Option (List Score) → Option (List Score)
  and_scores (some s) (some scores) = some (s ∷ scores)
  and_scores _ _ = none

  unfoldable pub score_segments : List Scoreable → Option (List Score)
  unfolding score_segment
  score_segments [] = some []
  score_segments (seg ∷ segments) = and_scores (score_segment seg) (score_segments segments)

  abbrev pub encoded : List Score → String
  encoded scores = encode (aggregate scores) (provenance scores)

  unfoldable pub write_parts :
      ℕ → List Score → List Bucket → List FeatureVector → List FeatureVector
  unfolding aggregate
  write_parts session_id scores [] table =
      write_feature_vector session_id Judge.pronunciation session (encoded scores) table
  write_parts session_id scores (b ∷ bs) table = write_parts session_id scores bs (
      write_feature_vector session_id Judge.pronunciation (part b) (encoded (scores_of b scores))
        table)

  -- `compute_pronunciation_scores`; the Boolean says that nothing was raised.
  unfoldable pub compute_pronunciation_scores :
      ℕ → List TurnSegment → List Transcript → List FeatureVector → Bool × List FeatureVector
  unfolding load_scoreable_segments score_segments write_parts
  compute_pronunciation_scores session_id segments transcripts table =
      elim (score_segments (load_scoreable_segments session_id segments transcripts)) [
        | none ↦ (false, table)
        | some scores ↦ (true, write_parts session_id scores bucket_order table)
      ]
