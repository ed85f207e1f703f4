-- ===== src/Worker/Grammar/Totals.antt =====
-- The metrics of a part, apps/worker/tasks/nlp/grammar.py: they are always computed, and their
-- ranges.
use session_replica_ielt.Prelude.{
  ℕ, zero, suc, ◌+◌, ◌-◌, ◌*◌, ◌≤◌, ◌≡◌, refl, min, String, some, List, [], ◌∷◌, map, length,
  round_ratio_le, arith,
}
use session_replica_ielt.Prelude.Dict.{Dict, lookup, insert}
use session_replica_ielt.Worker.Parse.{Doc}
use session_replica_ielt.Worker.Checker.{GrammarError, Checker, in_categories}
use session_replica_ielt.Worker.Utterances.{TranscriptWord, segment_into_utterances}
use session_replica_ielt.Worker.Grammar.TUnits.{Counts, count_tunits_and_clauses, counts_of}
use session_replica_ielt.Worker.Grammar.Closure.{t_unit_heads_iff}
use session_replica_ielt.Worker.Grammar.Structure.{
  see_tokens, no_range, add_error, categorize_error, taxonomy_of, grammar_error_categories,
}
use session_replica_ielt.Worker.Grammar.Metrics.{
  Totals, total_from, add_counts, no_counts, GrammarMetrics, empty_metrics, or_zero, metrics_of,
  text_of, parsed, metrics_for_words,
}

counted : (doc : Doc) → (c : Counts) × (count_tunits_and_clauses doc ≡ some c)
unfolding count_tunits_and_clauses
counted doc =
    let (heads, e, _) = t_unit_heads_iff doc in
    (counts_of doc (length heads), rw (e, count_tunits_and_clauses) refl)

totalled : (docs : List Doc) (t : Totals) → (t' : Totals) × (total_from docs t ≡ some t')
unfolding total_from
totalled [] t = (t, refl)
totalled (doc ∷ docs) t =
    let (c, e) = counted doc in
    let (t', e') =
      totalled docs (record { counts = add_counts t.counts c; range = see_tokens doc t.range }) in
    (t', rw (e, total_from) e')

-- The sum of a dict's values.
abbrev pub dict_sum : Dict ℕ → ℕ
dict_sum [] = 0
dict_sum ((k, v) ∷ d) = v + dict_sum d

dict_sum-add_error : (bucket : String) (d : Dict ℕ) → dict_sum (add_error bucket d) ≡ dict_sum d + 1
unfolding lookup insert
dict_sum-add_error bucket [] = omega arith
dict_sum-add_error bucket ((k, v) ∷ d) = ground (arith, dict_sum-add_error bucket d)

taxonomy_sum :
    (errors : List GrammarError) (d : Dict ℕ)
    → dict_sum (taxonomy_of errors d) ≡ dict_sum d + length errors
unfolding taxonomy_of
taxonomy_sum [] d = omega arith
taxonomy_sum (e ∷ errors) d = omega (
  arith,
  taxonomy_sum errors (add_error (categorize_error e.rule_id) d),
  dict_sum-add_error (categorize_error e.rule_id) d,
)

or_zero-le : (a b hi : ℕ) → a ≤ hi * b → or_zero a b ≤ hi
or_zero-le a zero hi h = ground arith
or_zero-le a (suc b) hi h = ground (arith, round_ratio_le a (suc b) hi)

-- The ratios are at most 1, and the taxonomy has each grammar error once.
abbrev pub InRange : GrammarMetrics → Type 0
InRange m =
    (m.dependent_clause_ratio ≤ 1000)
    × (m.error_free_clause_ratio ≤ 1000)
    × (dict_sum m.error_type_taxonomy ≡ m.grammar_error_count)

metrics_of-InRange :
    (t : Totals) (errors : List GrammarError) (n : ℕ) → InRange (metrics_of t errors n)
unfolding metrics_of
metrics_of-InRange t errors n =
    let clauses : ℕ = t.counts.t_units + t.counts.dependent_clauses in
    (
      or_zero-le (1000 * t.counts.dependent_clauses) clauses 1000 (omega arith),
      or_zero-le
          (1000 * (clauses - min (length (in_categories grammar_error_categories errors)) clauses))
          clauses 1000 (omega arith),
      omega (arith, taxonomy_sum (in_categories grammar_error_categories errors) []),
    )

-- If the checker answers, the metrics of a part are computed and in range.
pub metrics_for_words_returns :
    (parse_words : List String → Doc) (check : Checker) (words : List TranscriptWord)
    {errors : List GrammarError}
    → check (text_of words) ≡ some errors
    → (m : GrammarMetrics) × (metrics_for_words parse_words check words ≡ some m) × InRange m
unfolding metrics_for_words
metrics_for_words_returns parse_words check [] checked = (empty_metrics, refl, omega arith)
metrics_for_words_returns parse_words check (w ∷ ws) {errors} checked =
    let (t, e) =
      totalled (map (parsed parse_words) (segment_into_utterances 600 (w ∷ ws)))
        (record { counts = no_counts; range = no_range }) in
    (
      metrics_of t errors (length (w ∷ ws)),
      rw (e, metrics_for_words) (rw checked refl),
      metrics_of-InRange t errors (length (w ∷ ws)),
    )
