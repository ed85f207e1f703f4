-- ===== src/Worker/Pronunciation/Segments.antt =====
-- apps/worker/providers/pronunciation.py, the choice between the two vendors, and
-- apps/worker/tasks/pronunciation.py, the turns to score. The vendors are parameters. Scores and
-- confidences are in thousandths.
use session_replica_ielt.Prelude.{
  ℕ, ◌-◌, ◌*◌, ◌==◌, leb, Bool, not, ◌&&◌, String, Option, none, some, List, [], ◌∷◌, ◌++◌, map,
  select, if◌then◌else◌, round_ratio,
}
use session_replica_ielt.Prelude.Text.{Word, codes, join}
use session_replica_ielt.Fsm.{ExamPhase}
use session_replica_ielt.Worker.Asr.{Transcript}
use session_replica_ielt.Worker.Transcription.{Call, answered, refused, crashed}
use session_replica_ielt.Worker.Utterances.{Bucket, bucket_of}

pub record PronunciationAssessment : Type 0 where
  pub accuracy : ℕ
  pub fluency : ℕ
  pub completeness : ℕ
  pub prosody : ℕ
  pub confidence : ℕ

-- The end of `GOPFallbackProvider.assess`: `penalty` is the mean goodness, which is not positive,
-- in thousandths without its sign.
unfoldable pub gop_assessment : ℕ → PronunciationAssessment
gop_assessment penalty =
    let accuracy = 100 * round_ratio (100000 - 20 * penalty) 100 in
    record {
      accuracy = accuracy;
      fluency = accuracy;
      completeness = 100000;
      prosody = 0;
      confidence = 600;
    }

abbrev pub with_source :
    String → Call PronunciationAssessment → Call (PronunciationAssessment × String)
with_source source (answered a) = answered (a, source)
with_source source refused = refused
with_source source crashed = crashed

-- `assess_with_fallback`
unfoldable pub assess_with_fallback :
    ℕ
    → Bool
    → Call PronunciationAssessment
    → Call PronunciationAssessment
    → Call (PronunciationAssessment × String)
assess_with_fallback floor low_snr_flag (answered a) fallback =
    if leb floor a.confidence && not low_snr_flag
    then answered (a, "azure")
    else with_source "fallback_gop" fallback
assess_with_fallback floor low_snr_flag refused fallback = with_source "fallback_gop" fallback
assess_with_fallback floor low_snr_flag crashed fallback = crashed

-- `class AudioSegment`, with the columns that the task reads.
pub record TurnSegment : Type 0 where
  pub session_id : ℕ
  pub turn_id : ℕ
  pub exam_phase : Option ExamPhase
  pub storage_key : String

pub record Scoreable : Type 0 where
  pub turn_id : ℕ
  pub phase : Bucket
  pub storage_key : String
  pub reference_text : Word

-- `order_by(Transcript.seq)`
unfoldable pub place_by_seq : Transcript → List Transcript → List Transcript
place_by_seq r [] = r ∷ []
place_by_seq r (x ∷ xs) = if leb r.seq x.seq then r ∷ x ∷ xs else x ∷ place_by_seq r xs

unfoldable pub order_by_seq : List Transcript → List Transcript
unfolding place_by_seq
order_by_seq [] = []
order_by_seq (r ∷ rs) = place_by_seq r (order_by_seq rs)

-- `" ".join(words_by_turn.get(turn_id, []))`
abbrev pub words_of_turn : ℕ → List Transcript → Word
words_of_turn turn_id words =
    join (map (λ w. codes w.word) (select (λ w. w.turn_id == turn_id) words))

abbrev pub scoreable : List Transcript → TurnSegment → Option Bucket → List Scoreable
scoreable words seg none = []
scoreable words seg (some bucket) =
    record {
      turn_id = seg.turn_id;
      phase = bucket;
      storage_key = seg.storage_key;
      reference_text = words_of_turn seg.turn_id words;
    }
    ∷ []

unfoldable pub scoreable_from : List Transcript → List TurnSegment → List Scoreable
scoreable_from words [] = []
scoreable_from words (seg ∷ segments) =
    scoreable words seg (bucket_of seg.exam_phase) ++ scoreable_from words segments

-- `_load_scoreable_segments`
unfoldable pub load_scoreable_segments : ℕ → List TurnSegment → List Transcript → List Scoreable
unfolding order_by_seq scoreable_from
load_scoreable_segments session_id segments transcripts =
    scoreable_from (order_by_seq (select (λ w. w.session_id == session_id) transcripts))
      (select (λ s. s.session_id == session_id) segments)
