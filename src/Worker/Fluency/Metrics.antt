-- ===== src/Worker/Fluency/Metrics.antt =====
-- apps/worker/tasks/nlp/fluency.py, `_metrics_for_words`: the counts and the rates of a part. The
-- parser and the pronouncing dictionary are parameters.
use session_replica_ielt.Prelude.{
  ℕ, ◌+◌, ◌-◌, ◌*◌, min, max, ◌==◌, leb, ltb, Bool, true, false, ◌&&◌, String, Option, List, [],
  ◌∷◌, map, length, select, if◌then◌else◌, round_ratio,
}
use session_replica_ielt.Prelude.Text.{Word, same_word, is_word_in, distinct}
use session_replica_ielt.Worker.Parse.{Doc}
use session_replica_ielt.Worker.Lexicons.{
  filled_pauses, filled_pause_bigrams, discourse_markers, self_repair_markers, self_repair_bigrams,
}
use session_replica_ielt.Worker.Utterances.{TranscriptWord, segment_into_utterances}
use session_replica_ielt.Worker.Syllables.{syllable_count}
use session_replica_ielt.Worker.Fluency.Breaks.{
  micro_pause_floor, macro_pause_floor, normalize, detect_pauses, Placement,
  classify_pause_placement,
}

-- The neighbours that a test accepts.
unfoldable pub count_pairs : (Word → Word → Bool) → List Word → ℕ
count_pairs test [] = 0
count_pairs test (a ∷ []) = 0
count_pairs test (a ∷ b ∷ ws) = (if test a b then 1 else 0) + count_pairs test (b ∷ ws)

abbrev pub is_bigram : List (Word × Word) → Word → Word → Bool
is_bigram [] a b = false
is_bigram ((c, d) ∷ bigrams) a b =
    if same_word c a && same_word d b then true else is_bigram bigrams a b

abbrev pub is_repetition : Word → Word → Bool
is_repetition [] b = false
is_repetition (c ∷ a) b = same_word (c ∷ a) b

-- `_filled_pause_count`
unfoldable pub filled_pause_count : List Word → ℕ
unfolding count_pairs
filled_pause_count ws =
    length (select (is_word_in filled_pauses) ws) + count_pairs (is_bigram filled_pause_bigrams) ws

-- `_self_repair_count`
unfoldable pub self_repair_count : List Word → ℕ
unfolding count_pairs
self_repair_count ws =
    length (select (is_word_in self_repair_markers) ws)
    + count_pairs (is_bigram self_repair_bigrams) ws
    + count_pairs is_repetition ws

pub record Usage : Type 0 where
  pub uses : ℕ
  pub distinct_types : ℕ

-- `_discourse_marker_stats`
unfoldable pub discourse_marker_stats : List Word → Usage
discourse_marker_stats ws =
    let used = select (is_word_in discourse_markers) ws in
    record { uses = length used; distinct_types = distinct used }

-- An entry of `turn_spans`.
pub record Span : Type 0 where
  pub turn_id : ℕ
  pub first_start : ℕ
  pub last_end : ℕ

-- A round of the loop over the words.
unfoldable pub extend_spans : TranscriptWord → List Span → List Span
extend_spans w [] =
    record { turn_id = w.turn_id; first_start = w.start_ms; last_end = w.end_ms } ∷ []
extend_spans w (s ∷ spans) =
    if s.turn_id == w.turn_id
    then record s { first_start = min s.first_start w.start_ms; last_end = max s.last_end w.end_ms }
      ∷ spans
    else s ∷ extend_spans w spans

unfoldable pub turn_spans : List Span → List TranscriptWord → List Span
unfolding extend_spans
turn_spans spans [] = spans
turn_spans spans (w ∷ words) = turn_spans (extend_spans w spans) words

abbrev pub sum_of {ℓ} : {A : Type ℓ} → (A → ℕ) → List A → ℕ
sum_of f [] = 0
sum_of f (x ∷ xs) = f x + sum_of f xs

-- A total of differences: the later times less the earlier ones, and 0 where Python's is negative,
-- which takes a word that ends before it starts.
abbrev pub total_turn_duration : List TranscriptWord → ℕ
total_turn_duration words =
    let spans = turn_spans [] words in
    sum_of (λ s. s.last_end) spans - sum_of (λ s. s.first_start) spans

abbrev pub phonation_time : List TranscriptWord → ℕ
phonation_time words = sum_of (λ w. w.end_ms) words - sum_of (λ w. w.start_ms) words

-- A quotient of durations and counts, or 0.0 if the divisor is not positive.
abbrev pub ratio_or_zero : ℕ → ℕ → ℕ
ratio_or_zero a b = if ltb 0 b then round_ratio a b else 0

-- Rates in hundredths, the phonation time ratio in thousandths.
pub record FluencyMetrics : Type 0 where
  pub speech_rate_wpm : ℕ
  pub articulation_rate_syll_per_s : ℕ
  pub phonation_time_ratio : ℕ
  pub mean_length_of_run : ℕ
  pub silent_pause_rate_per_100_words : ℕ
  pub micro_pause_rate_per_100_words : ℕ
  pub macro_pause_rate_per_100_words : ℕ
  pub pause_placement : Placement
  pub filled_pause_rate_per_100_words : ℕ
  pub self_repair_rate_per_100_words : ℕ
  pub discourse_marker_usage : Usage
  pub total_words : ℕ
  pub total_turn_duration_s : ℕ

-- `_empty_metrics`
abbrev pub empty_metrics : FluencyMetrics
empty_metrics = record {
  speech_rate_wpm = 0;
  articulation_rate_syll_per_s = 0;
  phonation_time_ratio = 0;
  mean_length_of_run = 0;
  silent_pause_rate_per_100_words = 0;
  micro_pause_rate_per_100_words = 0;
  macro_pause_rate_per_100_words = 0;
  pause_placement = record { clause_boundary = 0; mid_clause = 0 };
  filled_pause_rate_per_100_words = 0;
  self_repair_rate_per_100_words = 0;
  discourse_marker_usage = record { uses = 0; distinct_types = 0 };
  total_words = 0;
  total_turn_duration_s = 0;
}

abbrev pub per_100_words : ℕ → List TranscriptWord → ℕ
per_100_words n words = round_ratio (10000 * n) (length words)

-- `_metrics_for_words`
unfoldable pub metrics_for_words :
    (List String → Doc) → (Word → Option ℕ) → List TranscriptWord → FluencyMetrics
unfolding detect_pauses classify_pause_placement filled_pause_count self_repair_count
    discourse_marker_stats turn_spans
metrics_for_words parse_words phones [] = empty_metrics
metrics_for_words parse_words phones (w ∷ ws) =
    let words = w ∷ ws in
    let pauses = detect_pauses words in
    let normalized = map (λ v. normalize v.word) words in
    record {
      speech_rate_wpm = ratio_or_zero (6000000 * length words) (total_turn_duration words);
      articulation_rate_syll_per_s =
          ratio_or_zero (100000 * sum_of (λ v. syllable_count phones v.word) words)
            (phonation_time words);
      phonation_time_ratio =
          ratio_or_zero (1000 * phonation_time words) (total_turn_duration words);
      mean_length_of_run =
          (let runs = segment_into_utterances micro_pause_floor words in
            ratio_or_zero (100 * sum_of length runs) (length runs));
      silent_pause_rate_per_100_words = per_100_words (length pauses) words;
      micro_pause_rate_per_100_words =
          per_100_words (length (select (λ p. ltb p.gap macro_pause_floor) pauses)) words;
      macro_pause_rate_per_100_words =
          per_100_words (length (select (λ p. leb macro_pause_floor p.gap) pauses)) words;
      pause_placement = classify_pause_placement parse_words words pauses;
      filled_pause_rate_per_100_words = per_100_words (filled_pause_count normalized) words;
      self_repair_rate_per_100_words = per_100_words (self_repair_count normalized) words;
      discourse_marker_usage = discourse_marker_stats normalized;
      total_words = length words;
      total_turn_duration_s = round_ratio (total_turn_duration words) 10;
    }
