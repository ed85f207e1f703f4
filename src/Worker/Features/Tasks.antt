-- ===== src/Worker/Features/Tasks.antt =====
-- `compute_fluency_metrics`, `compute_lexical_metrics` and `compute_grammar_metrics`
-- (apps/worker/tasks/nlp): the words of each part are loaded, measured and written. `encode` is the
-- text of the metrics with the number of words in their provenance.
use session_replica_ielt.Prelude.{
  ℕ, ◌≡◌, refl, String, Bool, true, Option, none, some, List, map, length,
}
use session_replica_ielt.Prelude.Text.{Word}
use session_replica_ielt.Fsm.{ExamPhase}
use session_replica_ielt.Worker.Judge
use session_replica_ielt.Worker.Parse.{Doc}
use session_replica_ielt.Worker.Checker.{GrammarError, Checker}
use session_replica_ielt.Worker.Asr.{Transcript}
use session_replica_ielt.Worker.Utterances.{Bucket, TranscriptWord, to_word, words_of_bucket}
use session_replica_ielt.Worker.Scoring.{session, FeatureVector, find_vector}
use session_replica_ielt.Worker.Features.{compute_metrics}
use session_replica_ielt.Worker.Features.Writes.{session_words, compute_metrics_writes}
use session_replica_ielt.Worker.Fluency.Metrics as Fluency
use session_replica_ielt.Worker.Lexical.Metrics as Lexical
use session_replica_ielt.Worker.Grammar.Metrics as Grammar
use session_replica_ielt.Worker.Grammar.Totals.{InRange, metrics_for_words_returns}

-- `load_words_by_phase(session_id).get(bucket, [])`
abbrev pub load_words_by_phase :
    (ℕ → Option ExamPhase) → ℕ → List Transcript → Bucket → List TranscriptWord
load_words_by_phase turn_phase session_id transcripts b =
    map to_word (words_of_bucket turn_phase session_id b transcripts)

abbrev pub with_provenance :
    {A : Type 0} → (ℕ → A → String) → List TranscriptWord → Option A → Option String
with_provenance encode words none = none
with_provenance encode words (some metrics) = some (encode (length words) metrics)

module _ (parse_words : List String → Doc) (turn_phase : ℕ → Option ExamPhase) (session_id : ℕ)
    (transcripts : List Transcript) where
  unfoldable pub compute_fluency_metrics :
      (Word → Option ℕ)
      → (ℕ → Fluency.FluencyMetrics → String)
      → List FeatureVector
      → Bool × List FeatureVector
  compute_fluency_metrics phones encode table =
      compute_metrics session_id Judge.fluency_coherence
        (λ words.
          with_provenance encode words (some (Fluency.metrics_for_words parse_words phones words)))
        (load_words_by_phase turn_phase session_id transcripts) table

  unfoldable pub compute_lexical_metrics :
      (Word → ℕ)
      → Checker
      → (ℕ → Lexical.LexicalMetrics → String)
      → List FeatureVector
      → Bool × List FeatureVector
  compute_lexical_metrics frequency check encode table =
      compute_metrics session_id Judge.lexical_resource
        (λ words.
          with_provenance encode words
            (Lexical.metrics_for_words parse_words frequency check words))
        (load_words_by_phase turn_phase session_id transcripts) table

  unfoldable pub compute_grammar_metrics :
      Checker
      → (ℕ → Grammar.GrammarMetrics → String)
      → List FeatureVector
      → Bool × List FeatureVector
  compute_grammar_metrics check encode table =
      compute_metrics session_id Judge.grammatical_range_accuracy
        (λ words. with_provenance encode words (Grammar.metrics_for_words parse_words check words))
        (load_words_by_phase turn_phase session_id transcripts) table

-- The grammar metrics of words whose text the checker answers.
module _ (parse_words : List String → Doc) (check : Checker)
    (answers : (text : Word) → (errors : List GrammarError) × (check text ≡ some errors)) where
  abbrev measured : List TranscriptWord → Grammar.GrammarMetrics
  measured words =
      (metrics_for_words_returns parse_words check words (answers (Grammar.text_of words)).1).0

  measured_lem :
      (words : List TranscriptWord)
      → Grammar.metrics_for_words parse_words check words ≡ some (measured words)
  measured_lem words =
      (metrics_for_words_returns parse_words check words (answers (Grammar.text_of words)).1).1

  measured-InRange : (words : List TranscriptWord) → InRange (measured words)
  measured-InRange words =
      (metrics_for_words_returns parse_words check words (answers (Grammar.text_of words)).1).2

  -- With a checker that always answers, the grammar task returns whatever the words and their parse
  -- are, and the session's vector holds metrics of all the words in order, which are in range.
  pub compute_grammar_metrics_returns :
      (turn_phase : ℕ → Option ExamPhase) (session_id : ℕ) (transcripts : List Transcript)
      (encode : ℕ → Grammar.GrammarMetrics → String) (table : List FeatureVector)
      → let words = session_words (load_words_by_phase turn_phase session_id transcripts) in
        let (returned, after) =
          compute_grammar_metrics parse_words turn_phase session_id transcripts check encode
            table in
        (returned ≡ true)
        × ((m : Grammar.GrammarMetrics) × (Grammar.metrics_for_words parse_words check words
              ≡ some m)
            × InRange m
            × (find_vector session_id Judge.grammatical_range_accuracy session after
                ≡ some (encode (length words) m)))
  unfolding compute_grammar_metrics
  compute_grammar_metrics_returns turn_phase session_id transcripts encode table =
      let words = load_words_by_phase turn_phase session_id transcripts in
      let all = session_words words in
      let (returned, _, written) =
        compute_metrics_writes session_id Judge.grammatical_range_accuracy
          (λ ws. with_provenance encode ws (Grammar.metrics_for_words parse_words check ws)) words
          table (λ b. encode (length (words b)) (measured (words b)))
          (encode (length all) (measured all)) (λ b. rw (measured_lem (words b)) refl)
          (rw (measured_lem all) refl) in
      (returned, (measured all, measured_lem all, measured-InRange all, written))
