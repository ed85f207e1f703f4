-- ===== src/Worker/Lexical/Metrics.antt =====
-- apps/worker/tasks/nlp/lexical.py, `_metrics_for_words`: bands, rare words, phrases and errors.
-- Ratios are in thousandths, a frequency and the MTLD in hundredths.
use session_replica_ielt.Prelude.{
  ℕ, zero, suc, ◌+◌, ◌-◌, ◌*◌, max, ◌==◌, leb, ltb, Bool, true, false, String, Option, none, some,
  List, [], ◌∷◌, map, length, select, any, take, if◌then◌else◌, round_ratio,
}
use session_replica_ielt.Prelude.Text.{Word, codes, to_lower, is_alpha, is_word_in, join}
use session_replica_ielt.Worker.Parse.{Doc}
use session_replica_ielt.Worker.Checker.{GrammarError, Checker, in_categories}
use session_replica_ielt.Worker.Lexicons.{collocations_and_idioms}
use session_replica_ielt.Worker.Utterances.{TranscriptWord}
use session_replica_ielt.Worker.Syllables.{clean_word, zipf}
use session_replica_ielt.Worker.Lexical.Diversity
use session_replica_ielt.Worker.Lexical.Diversity.{mattr_window}

-- `_normalize`
abbrev pub normalize : String → Word
normalize word = map to_lower (clean_word word)

-- The keys of `CEFR_PROXY_BANDS`
pub data Band : Type 0 where
  a1_a2 b1 b2 c1_c2 : Band

-- `_cefr_band`
unfoldable pub cefr_band : (Word → ℕ) → Word → Band
cefr_band frequency word =
    if leb 550 (zipf frequency word)
    then a1_a2
    else if leb 450 (zipf frequency word)
    then b1
    else if leb 350 (zipf frequency word)
    then b2
    else c1_c2

-- `TOP_5000_ZIPF_FLOOR`
abbrev pub top_5000_zipf_floor : ℕ
top_5000_zipf_floor = 400

pub record Distribution : Type 0 where
  pub a1_a2 : ℕ
  pub b1 : ℕ
  pub b2 : ℕ
  pub c1_c2 : ℕ

-- `cefr_counts[band] += 1`
abbrev pub add_band : Band → Distribution → Distribution
add_band a1_a2 d = record d { a1_a2 = d.a1_a2 + 1 }
add_band b1 d = record d { b1 = d.b1 + 1 }
add_band b2 d = record d { b2 = d.b2 + 1 }
add_band c1_c2 d = record d { c1_c2 = d.c1_c2 + 1 }

unfoldable pub cefr_counts : (Word → ℕ) → List Word → Distribution → Distribution
unfolding cefr_band
cefr_counts frequency [] d = d
cefr_counts frequency (w ∷ ws) d = cefr_counts frequency ws (add_band (cefr_band frequency w) d)

abbrev pub rare_count : (Word → ℕ) → List Word → ℕ
rare_count frequency ws = length (select (λ w. ltb (zipf frequency w) top_5000_zipf_floor) ws)

-- `len(phrase.split())`, for a phrase of single spaces.
abbrev pub phrase_length : Word → ℕ
phrase_length phrase = 1 + length (select (λ c. c == b' ') phrase)

abbrev pub max_length : List Word → ℕ
max_length [] = 0
max_length (p ∷ ps) = max (phrase_length p) (max_length ps)

abbrev pub flag : Bool → ℕ
flag true = 1
flag false = 0

-- The loop over the lengths at one start; the first argument counts the lengths that are left, and
-- the second is the next.
unfoldable pub matches_at : ℕ → ℕ → List Word → ℕ
matches_at zero len words = 0
matches_at (suc left) len words =
    if ltb (length words) len
    then 0
    else flag (is_word_in collocations_and_idioms (join (take len words)))
      + matches_at left (len + 1) words

-- The loop over the starts.
unfoldable pub matches_from : ℕ → List Word → ℕ
unfolding matches_at
matches_from left [] = 0
matches_from left (w ∷ ws) = matches_at left 2 (w ∷ ws) + matches_from left ws

-- `_collocation_match_count`
unfoldable pub collocation_match_count : List Word → ℕ
unfolding matches_from
collocation_match_count words = matches_from (max_length collocations_and_idioms - 1) words

-- `re.search(r"[a-zA-Z]", token.text)`
abbrev pub has_letter : String → Bool
has_letter text = any is_alpha (codes text)

-- `_lemmatize`
abbrev pub lemmatize : (List String → Doc) → List TranscriptWord → List Word
lemmatize parse_words words =
    map (λ t. map to_lower (codes t.lemma))
      (select (λ t. has_letter t.text) (parse_words (map (λ w. w.word) words)))

abbrev pub is_inhabited : Word → Bool
is_inhabited [] = false
is_inhabited (_ ∷ _) = true

-- `LEXICAL_ERROR_CATEGORIES`
abbrev pub lexical_error_categories : List String
lexical_error_categories = "COLLOCATIONS" ∷ "STYLE" ∷ "REDUNDANCY" ∷ "WORD_CHOICE" ∷ []

pub record LexicalMetrics : Type 0 where
  pub mtld : ℕ
  pub mattr : ℕ
  pub cefr_distribution : Distribution
  pub beyond_b2_ratio : ℕ
  pub off_top_5000_rarity_ratio : ℕ
  pub collocation_match_count : ℕ
  pub lexical_appropriacy_error_count : ℕ
  pub lexical_appropriacy_error_rate_per_100_words : ℕ
  pub total_words : ℕ

abbrev pub no_bands : Distribution
no_bands = record { a1_a2 = 0; b1 = 0; b2 = 0; c1_c2 = 0 }

-- `_empty_metrics`
abbrev pub empty_metrics : LexicalMetrics
empty_metrics = record {
  mtld = 0;
  mattr = 0;
  cefr_distribution = no_bands;
  beyond_b2_ratio = 0;
  off_top_5000_rarity_ratio = 0;
  collocation_match_count = 0;
  lexical_appropriacy_error_count = 0;
  lexical_appropriacy_error_rate_per_100_words = 0;
  total_words = 0;
}

-- `{band: round(count / total, 3) for band, count in cefr_counts.items()}`
abbrev pub per_total : ℕ → Distribution → Distribution
per_total total d = record {
  a1_a2 = round_ratio (1000 * d.a1_a2) total;
  b1 = round_ratio (1000 * d.b1) total;
  b2 = round_ratio (1000 * d.b2) total;
  c1_c2 = round_ratio (1000 * d.c1_c2) total;
}

-- `[w for w in (_normalize(word.word) for word in words) if w]`
abbrev pub normalized : List TranscriptWord → List Word
normalized words = select is_inhabited (map (λ w. normalize w.word) words)

unfoldable pub metrics_of :
    (Word → ℕ) → List Word → List Word → List GrammarError → ℕ → LexicalMetrics
unfolding cefr_counts collocation_match_count
metrics_of frequency lemmas words errors total_words =
    let total = max 1 (length words) in
    let distribution = per_total total (cefr_counts frequency words no_bands) in
    let lexical_errors = length (in_categories lexical_error_categories errors) in
    record {
      mtld = Diversity.mtld lemmas;
      mattr = Diversity.mattr lemmas mattr_window;
      cefr_distribution = distribution;
      beyond_b2_ratio = distribution.c1_c2;
      off_top_5000_rarity_ratio = round_ratio (1000 * rare_count frequency words) total;
      collocation_match_count = collocation_match_count words;
      lexical_appropriacy_error_count = lexical_errors;
      lexical_appropriacy_error_rate_per_100_words = round_ratio (10000 * lexical_errors) total;
      total_words = total_words;
    }

-- `_metrics_for_words`; `none` is an exception of the checker.
unfoldable pub metrics_for_words :
    (List String → Doc) → (Word → ℕ) → Checker → List TranscriptWord → Option LexicalMetrics
unfolding metrics_of
metrics_for_words parse_words frequency check [] = some empty_metrics
metrics_for_words parse_words frequency check (w ∷ ws) =
    elim (check (join (map (λ v. codes v.word) (w ∷ ws)))) [
      | none ↦ none
      | some errors ↦ some (
          metrics_of frequency (lemmatize parse_words (w ∷ ws)) (normalized (w ∷ ws)) errors
            (length (w ∷ ws)))
    ]
