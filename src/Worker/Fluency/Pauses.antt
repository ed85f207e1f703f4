-- ===== src/Worker/Fluency/Pauses.antt =====
-- The pauses of a part against its runs, apps/worker/tasks/nlp/fluency.py.
use session_replica_ielt.Prelude.{
  ℕ, ◌+◌, ◌≡◌, ◌==◌, List, [], ◌∷◌, ◌++◌, length, if◌then◌else◌, arith, length-append,
}
use session_replica_ielt.Worker.Utterances.{
  TranscriptWord, breaks, segment_from, segment_into_utterances,
}
use session_replica_ielt.Worker.Fluency.Breaks.{pauses_from, detect_pauses, micro_pause_floor}

-- The neighbours of different turns.
abbrev pub turn_changes : TranscriptWord → List TranscriptWord → ℕ
turn_changes prev [] = 0
turn_changes prev (curr ∷ words) =
    (if curr.turn_id == prev.turn_id then 0 else 1) + turn_changes curr words

segment_from-length :
    (i : ℕ) (prev : TranscriptWord) (chunks : List (List TranscriptWord))
    (last words : List TranscriptWord)
    → length (segment_from micro_pause_floor prev chunks last words)
      ≡ length chunks + 1 + length (pauses_from i prev words) + turn_changes prev words
unfolding segment_from pauses_from breaks
segment_from-length i prev chunks last [] = omega (arith, length-append chunks (last ∷ []))
segment_from-length i prev chunks last (curr ∷ words) = ground (
  arith,
  segment_from-length (i + 1) curr (chunks ++ last ∷ []) (curr ∷ []) words,
  segment_from-length (i + 1) curr chunks (last ++ curr ∷ []) words,
  length-append chunks (last ∷ []),
)

-- The runs of a part are one more than its pauses and its changes of turn.
pub runs_count :
    (w : TranscriptWord) (words : List TranscriptWord)
    → length (segment_into_utterances micro_pause_floor (w ∷ words))
      ≡ 1 + length (detect_pauses (w ∷ words)) + turn_changes w words
unfolding segment_into_utterances detect_pauses
runs_count w words = segment_from-length 0 w [] (w ∷ []) words
