-- ===== src/Worker/Transcription.antt =====
-- apps/worker/providers/transcription.py: the choice between the two transcription vendors. What a
-- vendor gives is a parameter. A confidence is in thousandths.
use session_replica_ielt.Prelude.{
  ℕ, ◌+◌, ◌*◌, leb, Bool, false, String, Option, none, some, List, [], ◌∷◌, ◌++◌, length,
  if◌then◌else◌, round_ratio,
}
use session_replica_ielt.Worker.Asr.{WordResult}

-- A call of a vendor: an answer, its `TranscriptionError`, or another exception.
pub data Call (A : Type 0) : Type 0 where
  answered : A → Call A
  refused : Call A
  crashed : Call A

abbrev pub sum_confidence : List WordResult → ℕ
sum_confidence [] = 0
sum_confidence (w ∷ words) = w.confidence + sum_confidence words

-- `words and _average_confidence(words) >= floor`
unfoldable pub is_confident : ℕ → List WordResult → Bool
is_confident floor [] = false
is_confident floor (w ∷ words) = leb (floor * length (w ∷ words)) (sum_confidence (w ∷ words))

-- `transcribe_with_fallback`
unfoldable pub transcribe_with_fallback :
    ℕ → Call (List WordResult) → Call (List WordResult) → Call (List WordResult)
unfolding is_confident
transcribe_with_fallback floor (answered words) fallback =
    if is_confident floor words then answered words else fallback
transcribe_with_fallback floor refused fallback = fallback
transcribe_with_fallback floor crashed fallback = crashed

-- A word of whisperx's alignment, whose times may be missing, in microseconds.
pub record AlignedWord : Type 0 where
  pub word : String
  pub start : Option ℕ
  pub end : Option ℕ
  pub score : Option ℕ

abbrev pub or_zero : Option ℕ → ℕ
or_zero none = 0
or_zero (some n) = n

abbrev pub timed : String → Option ℕ → Option ℕ → Option ℕ → List WordResult
timed word (some start) (some end) score =
    record {
      word = word;
      start_ms = round_ratio start 1000;
      end_ms = round_ratio end 1000;
      confidence = or_zero score;
      source = "whisperx";
    }
    ∷ []
timed word _ _ score = []

-- The loop of `WhisperXTranscriptionProvider.transcribe` over a segment's words: those without
-- times are left out.
unfoldable pub timed_words : List AlignedWord → List WordResult
timed_words [] = []
timed_words (w ∷ words) = timed w.word w.start w.end w.score ++ timed_words words

-- The words of all segments.
unfoldable pub whisperx_words : List (List AlignedWord) → List WordResult
unfolding timed_words
whisperx_words [] = []
whisperx_words (segment ∷ segments) = timed_words segment ++ whisperx_words segments
