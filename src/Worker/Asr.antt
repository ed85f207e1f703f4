-- ===== src/Worker/Asr.antt =====
-- apps/worker/tasks/asr.py: the words of the recording are attributed to turns, numbered, and
-- replace the words of the session. The transcription itself is a parameter.
pub mod Attribution
pub mod Numbering
use session_replica_ielt.Prelude.{
  ℕ, zero, suc, ◌+◌, String, Bool, true, false, not, ◌&&◌, Option, none, some, List, [], ◌∷◌, ◌++◌,
  length, ◌==◌, ltb, leb, select, if◌then◌else◌,
}
use mathlib.Core.Option
use session_replica_ielt.Worker.Jobs.{
  TurnBoundary, GradingJob, JobResult, media, transcript, swept, scores, Ended, returned, raised,
  load_result, mark_running, finish,
}

-- `turn["start_ms"] <= start_ms < turn["end_ms"]`
abbrev pub holds : ℕ → TurnBoundary → Bool
holds start_ms turn = leb turn.start_ms start_ms && ltb start_ms turn.end_ms

unfoldable pub find_turn : List TurnBoundary → ℕ → Option ℕ
find_turn [] start_ms = none
find_turn (turn ∷ turns) start_ms =
    if holds start_ms turn then some turn.turn_id else find_turn turns start_ms

-- `turn_boundaries[-1]["turn_id"]`
abbrev pub last_turn : TurnBoundary → List TurnBoundary → ℕ
last_turn t [] = t.turn_id
last_turn t (u ∷ us) = last_turn u us

abbrev pub or_clamped : TurnBoundary → List TurnBoundary → ℕ → Option ℕ → ℕ
or_clamped t ts start_ms (some turn_id) = turn_id
or_clamped t ts start_ms none = if ltb start_ms t.start_ms then t.turn_id else last_turn t ts

-- `_turn_id_for_offset`; `none` is its RuntimeError.
unfoldable pub turn_id_for_offset : List TurnBoundary → ℕ → Option ℕ
unfolding find_turn
turn_id_for_offset [] start_ms = none
turn_id_for_offset (t ∷ ts) start_ms = some (or_clamped t ts start_ms (find_turn (t ∷ ts) start_ms))

-- A word of the transcription; the confidence in thousandths.
pub record WordResult : Type 0 where
  pub word : String
  pub start_ms : ℕ
  pub end_ms : ℕ
  pub confidence : ℕ
  pub source : String

pub record Transcript : Type 0 where
  pub session_id : ℕ
  pub turn_id : ℕ
  pub seq : ℕ
  pub word : String
  pub start_ms : ℕ
  pub end_ms : ℕ
  pub confidence : ℕ
  pub speaker : String
  pub source : String

-- `seq_by_turn`, its newest entries first.
abbrev pub SeqByTurn : Type 0
SeqByTurn = List (ℕ × ℕ)

-- `seq_by_turn.get(turn_id, 0)`
unfoldable pub seq_of : ℕ → SeqByTurn → ℕ
seq_of turn_id [] = 0
seq_of turn_id ((t, n) ∷ d) = if t == turn_id then n else seq_of turn_id d

unfoldable pub transcript_row : ℕ → ℕ → ℕ → WordResult → Transcript
transcript_row session_id turn_id seq w = record {
  session_id = session_id;
  turn_id = turn_id;
  seq = seq;
  word = w.word;
  start_ms = w.start_ms;
  end_ms = w.end_ms;
  confidence = w.confidence;
  speaker = "candidate";
  source = w.source;
}

-- `rows.append(...)`
abbrev pub with_row : Transcript → Option (List Transcript) → Option (List Transcript)
with_row r none = none
with_row r (some rows) = some (r ∷ rows)

-- The loop of `_persist_words`; `none` is the error of `_turn_id_for_offset`.
unfoldable pub rows_from :
    ℕ → List TurnBoundary → SeqByTurn → List WordResult → Option (List Transcript)
unfolding turn_id_for_offset seq_of transcript_row
rows_from session_id turn_boundaries d [] = some []
rows_from session_id turn_boundaries d (w ∷ ws) =
    elim (turn_id_for_offset turn_boundaries w.start_ms) [
      | none ↦ none
      | some turn_id ↦
          with_row (transcript_row session_id turn_id (seq_of turn_id d) w)
            (rows_from session_id turn_boundaries ((turn_id, seq_of turn_id d + 1) ∷ d) ws)
    ]

-- Delete, then insert, in one transaction.
unfoldable pub replace_rows : ℕ → List Transcript → List Transcript → List Transcript
replace_rows session_id rows table = select (λ r. not (r.session_id == session_id)) table ++ rows

unfoldable pub persist_words :
    ℕ → List TurnBoundary → List WordResult → List Transcript → Option (List Transcript)
unfolding rows_from replace_rows
persist_words session_id turn_boundaries words table =
    Option.map (λ rows. replace_rows session_id rows table)
      (rows_from session_id turn_boundaries [] words)

-- The tables of a transcription run.
pub record Tables : Type 0 where
  pub grading_jobs : List GradingJob
  pub transcripts : List Transcript

-- `_persist_words` and the result, or its error.
abbrev pub after_persist :
    String → ℕ → Option (List Transcript) → List Transcript → Ended × List Transcript
after_persist key count none table = (raised "no turn_boundaries to attribute words to", table)
after_persist key count (some table') table = (returned (transcript count key), table')

-- The body of `transcribe_full_session`: `transcribe` fetches the recording and gives its words, or
-- fails.
unfoldable pub transcribe_body :
    (String → Option (List WordResult))
    → ℕ
    → Option JobResult
    → List Transcript
    → Ended × List Transcript
unfolding persist_words
transcribe_body transcribe session_id (some (media key turn_boundaries duration_ms count)) table =
    elim (transcribe key) [
      | none ↦ (raised "transcription failed", table)
      | some words ↦
          after_persist key (length words) (persist_words session_id turn_boundaries words table)
            table
    ]
transcribe_body transcribe session_id (some _) table = (raised "canonical_audio_key", table)
transcribe_body transcribe session_id none table =
    (raised "finalize_media has not succeeded", table)

-- `transcribe_full_session`
unfoldable pub transcribe_full_session :
    (String → Option (List WordResult)) → ℕ → ℕ → Tables → Tables
unfolding transcribe_body
transcribe_full_session transcribe now session_id t =
    let jobs = mark_running now session_id "transcribe_full_session" t.grading_jobs in
    let (ended, table) =
      transcribe_body transcribe session_id (load_result session_id "finalize_media" jobs)
        t.transcripts in
    record {
      grading_jobs = finish now session_id "transcribe_full_session" ended jobs;
      transcripts = table;
    }
