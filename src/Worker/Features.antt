-- ===== src/Worker/Features.antt =====
-- The end of `compute_fluency_metrics`, `compute_lexical_metrics` and `compute_grammar_metrics`
-- (apps/worker/tasks/nlp): the metrics of each part and of the session are written. `metrics` is
-- the task's `_metrics_for_words` with its provenance, encoded, and `none` its exception; a retry
-- is another call.
pub mod Vectors
pub mod Writes
pub mod Tasks
use session_replica_ielt.Prelude.{
  ℕ, String, Bool, true, false, Option, none, some, List, [], ◌∷◌, ◌++◌,
}
use session_replica_ielt.Worker.Judge.{Criterion}
use session_replica_ielt.Worker.Utterances
use session_replica_ielt.Worker.Utterances.{Bucket, TranscriptWord}
use session_replica_ielt.Worker.Scoring.{Scope, part, session, FeatureVector, write_feature_vector}

-- `PHASE_BUCKET_ORDER`
abbrev pub bucket_order : List Bucket
bucket_order = Utterances.part1 ∷ Utterances.part2 ∷ Utterances.part3 ∷ []

-- `try` goes on only if nothing was raised.
abbrev pub and_then :
    Bool × List FeatureVector
    → (List FeatureVector → Bool × List FeatureVector)
    → Bool × List FeatureVector
and_then (true, table) k = k table
and_then (false, table) k = (false, table)

module _ (session_id : ℕ) (criterion : Criterion)
    (metrics : List TranscriptWord → Option String) where
  -- Each vector is written in a transaction of its own; the Boolean says that nothing was raised.
  unfoldable pub write_scope :
      Scope → List TranscriptWord → List FeatureVector → Bool × List FeatureVector
  write_scope scope words table = elim (metrics words) [
    | none ↦ (false, table)
    | some features ↦ (true, write_feature_vector session_id criterion scope features table)
  ]

  -- The loop over the parts, with `session_words`, and the session's vector at the end.
  unfoldable pub write_parts :
      (Bucket → List TranscriptWord)
      → List TranscriptWord
      → List Bucket
      → List FeatureVector
      → Bool × List FeatureVector
  unfolding write_scope
  write_parts words session_words [] table = write_scope session session_words table
  write_parts words session_words (b ∷ bs) table =
      and_then (write_scope (part b) (words b) table)
        (write_parts words (session_words ++ words b) bs)

  unfoldable pub compute_metrics :
      (Bucket → List TranscriptWord) → List FeatureVector → Bool × List FeatureVector
  unfolding write_parts
  compute_metrics words table = write_parts words [] bucket_order table
