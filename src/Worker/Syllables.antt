-- ===== src/Worker/Syllables.antt =====
-- apps/worker/nlp_common.py: the words as the metrics compare and count them. The pronouncing
-- dictionary and the word frequencies are parameters.
use session_replica_ielt.Prelude.{
  ℕ, ◌+◌, max, ◌==◌, Bool, false, ◌||◌, String, Option, none, some, [], ◌∷◌, map, select,
  if◌then◌else◌,
}
use session_replica_ielt.Prelude.Text.{Word, codes, is_alpha, to_lower, is_word_in}

-- `[a-zA-Z']`
abbrev pub is_letter : ℕ → Bool
is_letter c = is_alpha c || c == 39

-- `_clean_word`
abbrev pub clean_word : String → Word
clean_word word = select is_letter (codes word)

-- `[aeiouy]`, in either case
abbrev pub is_vowel : ℕ → Bool
is_vowel c =
    is_word_in
      ((b'a' ∷ []) ∷ (b'e' ∷ []) ∷ (b'i' ∷ []) ∷ (b'o' ∷ []) ∷ (b'u' ∷ []) ∷ (b'y' ∷ []) ∷ [])
      (to_lower c ∷ [])

-- The runs of vowels; the first argument says that one is open.
unfoldable pub vowel_groups : Bool → Word → ℕ
vowel_groups inside [] = 0
vowel_groups inside (c ∷ w) =
    (if is_vowel c then (if inside then 0 else 1) else 0) + vowel_groups (is_vowel c) w

-- `syllable_count`; `phones` gives the syllables of a word's first pronunciation.
unfoldable pub syllables_of : (Word → Option ℕ) → Word → ℕ
unfolding vowel_groups
syllables_of phones [] = 0
syllables_of phones (c ∷ w) = elim (phones (map to_lower (c ∷ w))) [
  | some n ↦ n
  | none ↦ max 1 (vowel_groups false (c ∷ w))
]

unfoldable pub syllable_count : (Word → Option ℕ) → String → ℕ
unfolding syllables_of
syllable_count phones word = syllables_of phones (clean_word word)

abbrev pub zipf_of : (Word → ℕ) → Word → ℕ
zipf_of frequency [] = 0
zipf_of frequency (c ∷ w) = frequency (c ∷ w)

-- `zipf`; a frequency in hundredths.
unfoldable pub zipf : (Word → ℕ) → Word → ℕ
zipf frequency word = zipf_of frequency (map to_lower (select is_letter word))
