-- ===== src/Worker/Utterances.antt =====
-- apps/worker/nlp_common.py: a session's words by part of the exam, and their utterances.
pub mod Segments
use session_replica_ielt.Prelude.{
  ℕ, ◌+◌, String, Bool, true, false, not, ◌||◌, Option, none, some, List, [], ◌∷◌, ◌++◌, ◌==◌, leb,
  select, if◌then◌else◌,
}
use session_replica_ielt.Fsm
use session_replica_ielt.Fsm.{ExamPhase}
use session_replica_ielt.Worker.Asr.{Transcript}

-- The keys of `_PHASE_BUCKETS`' values.
pub data Bucket : Type 0 where
  part1 part2 part3 : Bucket

-- `_PHASE_BUCKETS.get(phase)`
unfoldable pub phase_bucket : ExamPhase → Option Bucket
phase_bucket Fsm.part1_topic_a = some part1
phase_bucket Fsm.part1_topic_b = some part1
phase_bucket Fsm.part1_topic_c = some part1
phase_bucket Fsm.part2_long_turn = some part2
phase_bucket Fsm.part2_roundoff = some part2
phase_bucket Fsm.part3_discussion = some part3
phase_bucket _ = none

pub record TranscriptWord : Type 0 where
  pub turn_id : ℕ
  pub seq : ℕ
  pub word : String
  pub start_ms : ℕ
  pub end_ms : ℕ

abbrev pub to_word : Transcript → TranscriptWord
to_word r = record {
  turn_id = r.turn_id;
  seq = r.seq;
  word = r.word;
  start_ms = r.start_ms;
  end_ms = r.end_ms;
}

-- `order_by(Transcript.start_ms)`
unfoldable pub insert_by_start : Transcript → List Transcript → List Transcript
insert_by_start r [] = r ∷ []
insert_by_start r (x ∷ xs) =
    if leb r.start_ms x.start_ms then r ∷ x ∷ xs else x ∷ insert_by_start r xs

unfoldable pub order_by_start : List Transcript → List Transcript
unfolding insert_by_start
order_by_start [] = []
order_by_start (r ∷ rs) = insert_by_start r (order_by_start rs)

abbrev pub same_bucket : Bucket → Option Bucket → Bool
same_bucket part1 (some part1) = true
same_bucket part2 (some part2) = true
same_bucket part3 (some part3) = true
same_bucket _ _ = false

abbrev pub bucket_of : Option ExamPhase → Option Bucket
bucket_of none = none
bucket_of (some p) = phase_bucket p

-- `load_words_by_phase(session_id).get(bucket)`; `turn_phase` is the phase that `audio_segments`
-- has for a turn.
unfoldable pub words_of_bucket :
    (ℕ → Option ExamPhase) → ℕ → Bucket → List Transcript → List Transcript
unfolding order_by_start phase_bucket
words_of_bucket turn_phase session_id b table =
    select (λ r. same_bucket b (bucket_of (turn_phase r.turn_id)))
      (order_by_start (select (λ r. r.session_id == session_id) table))

-- A new turn, or a pause of `pause_threshold` milliseconds.
unfoldable pub breaks : ℕ → TranscriptWord → TranscriptWord → Bool
breaks pause_threshold prev curr =
    not (curr.turn_id == prev.turn_id) || leb (prev.end_ms + pause_threshold) curr.start_ms

-- The loop of `segment_into_utterances`: the chunks before the last, and the last.
unfoldable pub segment_from :
    ℕ
    → TranscriptWord
    → List (List TranscriptWord)
    → List TranscriptWord
    → List TranscriptWord
    → List (List TranscriptWord)
unfolding breaks
segment_from pause_threshold prev chunks last [] = chunks ++ last ∷ []
segment_from pause_threshold prev chunks last (curr ∷ words) =
    if breaks pause_threshold prev curr
    then segment_from pause_threshold curr (chunks ++ last ∷ []) (curr ∷ []) words
    else segment_from pause_threshold curr chunks (last ++ curr ∷ []) words

-- `segment_into_utterances`
unfoldable pub segment_into_utterances : ℕ → List TranscriptWord → List (List TranscriptWord)
unfolding segment_from
segment_into_utterances pause_threshold [] = []
segment_into_utterances pause_threshold (w ∷ words) =
    segment_from pause_threshold w [] (w ∷ []) words
