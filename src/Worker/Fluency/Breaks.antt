-- ===== src/Worker/Fluency/Breaks.antt =====
-- apps/worker/tasks/nlp/fluency.py, the pauses of a part and where they fall. Times are milliseconds;
-- the parser is a parameter.
use session_replica_ielt.Prelude.{
  ℕ, ◌+◌, ◌-◌, ◌==◌, leb, Bool, false, ◌&&◌, ◌||◌, String, List, [], ◌∷◌, ◌++◌, map, length, select,
  if◌then◌else◌,
}
use session_replica_ielt.Prelude.Text.{Word, codes, is_alpha, to_lower}
use session_replica_ielt.Worker.Parse.{Doc}
use session_replica_ielt.Worker.Utterances.{TranscriptWord, segment_into_utterances}

-- `MICRO_PAUSE_FLOOR_S`, `MACRO_PAUSE_FLOOR_S` and `CHUNKING_PAUSE_THRESHOLD_S`
abbrev pub micro_pause_floor : ℕ
micro_pause_floor = 300

abbrev pub macro_pause_floor : ℕ
macro_pause_floor = 1000

abbrev pub chunking_pause_threshold : ℕ
chunking_pause_threshold = 600

-- `_normalize`
abbrev pub normalize : String → Word
normalize word = select is_alpha (map to_lower (codes word))

pub record Pause : Type 0 where
  pub after_word_index : ℕ
  pub gap : ℕ

-- The test of the loop: within a turn, and long enough.
abbrev pub is_pause : TranscriptWord → TranscriptWord → Bool
is_pause prev curr =
    (curr.turn_id == prev.turn_id) && leb (prev.end_ms + micro_pause_floor) curr.start_ms

-- The loop of `_detect_pauses`, from the word `prev` of index `i`.
unfoldable pub pauses_from : ℕ → TranscriptWord → List TranscriptWord → List Pause
pauses_from i prev [] = []
pauses_from i prev (curr ∷ words) =
    (if is_pause prev curr
      then record { after_word_index = i; gap = curr.start_ms - prev.end_ms } ∷ []
      else [])
    ++ pauses_from (i + 1) curr words

-- `_detect_pauses`
unfoldable pub detect_pauses : List TranscriptWord → List Pause
unfolding pauses_from
detect_pauses [] = []
detect_pauses (w ∷ words) = pauses_from 0 w words

-- `boundary_after`, its newest entries first.
abbrev pub Boundaries : Type 0
Boundaries = List (ℕ × Bool)

-- `token.i == token.right_edge.i`, for the tokens from a position on.
unfoldable pub mark_tokens : ℕ → Doc → Boundaries → Boundaries
mark_tokens at [] marks = marks
mark_tokens at (t ∷ doc) marks = mark_tokens (at + 1) doc ((at, t.i == t.right_edge) ∷ marks)

abbrev pub word_of : TranscriptWord → String
word_of w = w.word

unfoldable pub mark_chunks :
    (List String → Doc) → ℕ → List (List TranscriptWord) → Boundaries → Boundaries
unfolding mark_tokens
mark_chunks parse_words offset [] marks = marks
mark_chunks parse_words offset (chunk ∷ chunks) marks =
    mark_chunks parse_words (offset + length chunk) chunks
      (mark_tokens offset (parse_words (map word_of chunk)) marks)

-- `boundary_after.get(i, False)`
unfoldable pub is_boundary_after : ℕ → Boundaries → Bool
is_boundary_after i [] = false
is_boundary_after i ((j, b) ∷ marks) = if j == i then b else is_boundary_after i marks

pub record Placement : Type 0 where
  pub clause_boundary : ℕ
  pub mid_clause : ℕ

-- A round of the last loop.
unfoldable pub place_pause : Boundaries → Pause → Placement → Placement
unfolding is_boundary_after
place_pause marks pause p =
    if leb chunking_pause_threshold pause.gap || is_boundary_after pause.after_word_index marks
    then record p { clause_boundary = p.clause_boundary + 1 }
    else record p { mid_clause = p.mid_clause + 1 }

unfoldable pub place_pauses : Boundaries → List Pause → Placement → Placement
unfolding place_pause
place_pauses marks [] p = p
place_pauses marks (pause ∷ pauses) p = place_pauses marks pauses (place_pause marks pause p)

-- `_classify_pause_placement`
unfoldable pub classify_pause_placement :
    (List String → Doc) → List TranscriptWord → List Pause → Placement
unfolding mark_chunks place_pauses
classify_pause_placement parse_words words pauses =
    place_pauses
      (mark_chunks parse_words 0 (segment_into_utterances chunking_pause_threshold words) []) pauses
      (record { clause_boundary = 0; mid_clause = 0 })
