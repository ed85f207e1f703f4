-- ===== src/Worker/Grammar/Metrics.antt =====
-- apps/worker/tasks/nlp/grammar.py, `_metrics_for_words`: the range and the accuracy of a part. Ratios
-- are in thousandths, means and rates in hundredths.
use session_replica_ielt.Prelude.{
  ℕ, ◌+◌, ◌-◌, ◌*◌, min, ltb, Bool, true, false, String, Option, none, some, List, [], ◌∷◌, map,
  length, if◌then◌else◌, round_ratio,
}
use session_replica_ielt.Prelude.Dict.{Dict}
use session_replica_ielt.Prelude.Text.{Word, codes, join}
use session_replica_ielt.Worker.Parse.{Doc}
use session_replica_ielt.Worker.Checker.{GrammarError, Checker, in_categories}
use session_replica_ielt.Worker.Utterances.{TranscriptWord, segment_into_utterances}
use session_replica_ielt.Worker.Grammar.TUnits.{Counts, count_tunits_and_clauses}
use session_replica_ielt.Worker.Grammar.Structure.{
  grammar_error_categories, taxonomy_of, Range, no_range, see_tokens,
}

abbrev pub add_counts : Counts → Counts → Counts
add_counts a b = record {
  t_units = a.t_units + b.t_units;
  dependent_clauses = a.dependent_clauses + b.dependent_clauses;
  coordinated_clauses = a.coordinated_clauses + b.coordinated_clauses;
  complex_nominals = a.complex_nominals + b.complex_nominals;
}

-- The totals of the loop over the chunks.
pub record Totals : Type 0 where
  pub counts : Counts
  pub range : Range

abbrev pub no_counts : Counts
no_counts = record {
  t_units = 0;
  dependent_clauses = 0;
  coordinated_clauses = 0;
  complex_nominals = 0;
}

-- The loop over the chunks; `none` is that of the T-units.
unfoldable pub total_from : List Doc → Totals → Option Totals
unfolding see_tokens
total_from [] t = some t
total_from (doc ∷ docs) t = elim (count_tunits_and_clauses doc) [
  | none ↦ none
  | some counts ↦
      total_from docs
        (record { counts = add_counts t.counts counts; range = see_tokens doc t.range })
]

abbrev pub flag : Bool → ℕ
flag true = 1
flag false = 0

abbrev pub is_inhabited : List String → Bool
is_inhabited [] = false
is_inhabited (_ ∷ _) = true

abbrev pub structural_diversity_count : Range → ℕ
structural_diversity_count r =
    length r.tenses
    + flag r.has_passive
    + flag r.has_conditional
    + flag r.has_relative_clause
    + flag (is_inhabited r.modals)

pub record GrammarMetrics : Type 0 where
  pub mean_length_of_t_unit : ℕ
  pub clauses_per_t_unit : ℕ
  pub dependent_clause_ratio : ℕ
  pub complex_nominals_per_clause : ℕ
  pub coordination_index : ℕ
  pub structural_range : Range
  pub structural_diversity : ℕ
  pub error_free_clause_ratio : ℕ
  pub grammar_error_count : ℕ
  pub errors_per_100_words : ℕ
  pub error_type_taxonomy : Dict ℕ
  pub t_unit_count : ℕ
  pub total_words : ℕ

-- `_empty_metrics`
abbrev pub empty_metrics : GrammarMetrics
empty_metrics = record {
  mean_length_of_t_unit = 0;
  clauses_per_t_unit = 0;
  dependent_clause_ratio = 0;
  complex_nominals_per_clause = 0;
  coordination_index = 0;
  structural_range = no_range;
  structural_diversity = 0;
  error_free_clause_ratio = 0;
  grammar_error_count = 0;
  errors_per_100_words = 0;
  error_type_taxonomy = [];
  t_unit_count = 0;
  total_words = 0;
}

abbrev pub or_zero : ℕ → ℕ → ℕ
or_zero a b = if ltb 0 b then round_ratio a b else 0

-- The end of `_metrics_for_words`: the totals, the errors and the number of words.
unfoldable pub metrics_of : Totals → List GrammarError → ℕ → GrammarMetrics
unfolding taxonomy_of
metrics_of t errors total_words =
    let grammar_errors = in_categories grammar_error_categories errors in
    let clauses = t.counts.t_units + t.counts.dependent_clauses in
    record {
      mean_length_of_t_unit = or_zero (100 * total_words) t.counts.t_units;
      clauses_per_t_unit = or_zero (100 * clauses) t.counts.t_units;
      dependent_clause_ratio = or_zero (1000 * t.counts.dependent_clauses) clauses;
      complex_nominals_per_clause = or_zero (1000 * t.counts.complex_nominals) clauses;
      coordination_index = or_zero (1000 * t.counts.coordinated_clauses) clauses;
      structural_range = t.range;
      structural_diversity = structural_diversity_count t.range;
      error_free_clause_ratio =
          or_zero (1000 * (clauses - min (length grammar_errors) clauses)) clauses;
      grammar_error_count = length grammar_errors;
      errors_per_100_words = or_zero (10000 * length grammar_errors) total_words;
      error_type_taxonomy = taxonomy_of grammar_errors [];
      t_unit_count = t.counts.t_units;
      total_words = total_words;
    }

abbrev pub text_of : List TranscriptWord → Word
text_of words = join (map (λ w. codes w.word) words)

abbrev pub parsed : (List String → Doc) → List TranscriptWord → Doc
parsed parse_words chunk = parse_words (map (λ w. w.word) chunk)

-- `_metrics_for_words`; `none` is an exception of the checker.
unfoldable pub metrics_for_words :
    (List String → Doc) → Checker → List TranscriptWord → Option GrammarMetrics
unfolding total_from metrics_of
metrics_for_words parse_words check [] = some empty_metrics
metrics_for_words parse_words check (w ∷ ws) =
    elim (total_from (map (parsed parse_words) (segment_into_utterances 600 (w ∷ ws)))
      (record { counts = no_counts; range = no_range })) [
        | none ↦ none
        | some totals ↦ elim (check (text_of (w ∷ ws))) [
          | none ↦ none
          | some errors ↦ some (metrics_of totals errors (length (w ∷ ws)))
        ]
      ]
