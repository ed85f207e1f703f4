-- ===== src/Worker/Fluency/Placement.antt =====
-- Where the pauses of a part fall, apps/worker/tasks/nlp/fluency.py `_classify_pause_placement`.
use session_replica_ielt.Prelude.{
  ℕ, zero, suc, ◌+◌, ◌≡◌, refl, ap, sym, ◌∙◌, ◌==◌, leb, Bool, false, not, ◌||◌, String, List, [],
  ◌∷◌, ◌++◌, map, length, select, if◌then◌else◌, arith, append_assoc, append-nil, length-append,
}
use session_replica_ielt.Worker.Parse.{Token, Doc}
use session_replica_ielt.Worker.Utterances.{TranscriptWord, segment_into_utterances}
use session_replica_ielt.Worker.Utterances.Segments.{concat, segment_into_utterances-concat}
use session_replica_ielt.Worker.Fluency.Breaks.{
  Pause, Boundaries, Placement, word_of, mark_tokens, mark_chunks, is_boundary_after, place_pause,
  place_pauses, classify_pause_placement, chunking_pause_threshold,
}

-- The token ends its own subtree.
abbrev pub ends_clause : Token → Bool
ends_clause t = t.i == t.right_edge

-- Of the words of the utterances, one after another, whether they end a clause in the parse of
-- their own utterance.
abbrev pub clause_ends : (List String → Doc) → List (List TranscriptWord) → List Bool
clause_ends parse_words [] = []
clause_ends parse_words (c ∷ cs) =
    map ends_clause (parse_words (map word_of c)) ++ clause_ends parse_words cs

-- The entry of an index, false out of range.
abbrev pub flag_at : List Bool → ℕ → Bool
flag_at [] i = false
flag_at (b ∷ bs) zero = b
flag_at (b ∷ bs) (suc i) = flag_at bs i

-- A pause that would end an utterance, or comes after a word that ends a clause.
abbrev pub is_at_boundary : List Bool → Pause → Bool
is_at_boundary ends x = leb chunking_pause_threshold x.gap || flag_at ends x.after_word_index

abbrev pub is_inside : List Bool → Pause → Bool
is_inside ends x = not (is_at_boundary ends x)

-- The dictionary of marks reads as the list.
abbrev Reads : Boundaries → List Bool → Type 0
Reads marks ends = (i : ℕ) → is_boundary_after i marks ≡ flag_at ends i

flag_at-snoc :
    (ends : List Bool) (b : Bool) (i : ℕ)
    → flag_at (ends ++ b ∷ []) i ≡ (if length ends == i then b else flag_at ends i)
flag_at-snoc [] b zero = refl
flag_at-snoc [] b (suc i) = ground arith
flag_at-snoc (e ∷ ends) b zero = ground arith
flag_at-snoc (e ∷ ends) b (suc i) = ground (arith, flag_at-snoc ends b i)

mark_tokens-Reads :
    (at : ℕ) (doc : Doc) (marks : Boundaries) (ends : List Bool)
    → length ends ≡ at
    → Reads marks ends
    → Reads (mark_tokens at doc marks) (ends ++ map ends_clause doc)
unfolding mark_tokens is_boundary_after
mark_tokens-Reads at [] marks ends size reads i =
    reads i ∙ ap (λ l. flag_at l i) (sym (append-nil ends))
mark_tokens-Reads at (t ∷ doc) marks ends size reads i =
    mark_tokens-Reads (at + 1) doc ((at, ends_clause t) ∷ marks) (ends ++ ends_clause t ∷ [])
      (omega (arith, length-append ends (ends_clause t ∷ []), size))
      (λ j. rw (flag_at-snoc ends (ends_clause t) j, size, sym (reads j)) refl) i
    ∙ ap (λ l. flag_at l i) (append_assoc ends (ends_clause t ∷ []) (map ends_clause doc))

length-ends : (doc : Doc) → length (map ends_clause doc) ≡ length doc
length-ends [] = refl
length-ends (t ∷ doc) = ap suc (length-ends doc)

length-words : (c : List TranscriptWord) → length (map word_of c) ≡ length c
length-words [] = refl
length-words (w ∷ c) = ap suc (length-words c)

-- A parser with one token for each word.
module _ (parse_words : List String → Doc)
    (one_each : (ws : List String) → length (parse_words ws) ≡ length ws) where
  length-chunk :
      (c : List TranscriptWord) → length (map ends_clause (parse_words (map word_of c))) ≡ length c
  length-chunk c =
      length-ends (parse_words (map word_of c)) ∙ one_each (map word_of c) ∙ length-words c

  length-clause_ends :
      (cs : List (List TranscriptWord)) → length (clause_ends parse_words cs) ≡ length (concat cs)
  length-clause_ends [] = refl
  length-clause_ends (c ∷ cs) = omega (
    arith,
    length-append (map ends_clause (parse_words (map word_of c))) (clause_ends parse_words cs),
    length-append c (concat cs),
    length-chunk c,
    length-clause_ends cs,
  )

  mark_chunks-Reads :
      (offset : ℕ) (cs : List (List TranscriptWord)) (marks : Boundaries) (ends : List Bool)
      → length ends ≡ offset
      → Reads marks ends
      → Reads (mark_chunks parse_words offset cs marks) (ends ++ clause_ends parse_words cs)
  unfolding mark_chunks
  mark_chunks-Reads offset [] marks ends size reads i =
      reads i ∙ ap (λ l. flag_at l i) (sym (append-nil ends))
  mark_chunks-Reads offset (c ∷ cs) marks ends size reads i =
      let doc = parse_words (map word_of c) in
      let more = map ends_clause doc in
      mark_chunks-Reads (offset + length c) cs (mark_tokens offset doc marks) (ends ++ more)
        (omega (arith, length-append ends more, length-chunk c, size))
        (mark_tokens-Reads offset doc marks ends size reads) i
      ∙ ap (λ l. flag_at l i) (append_assoc ends more (clause_ends parse_words cs))

place_pauses-counts :
    (marks : Boundaries) (ends : List Bool) (pauses : List Pause) (p : Placement)
    → Reads marks ends
    → let q = place_pauses marks pauses p in
      (q.clause_boundary ≡ p.clause_boundary + length (select (is_at_boundary ends) pauses))
      × (q.mid_clause ≡ p.mid_clause + length (select (is_inside ends) pauses))
unfolding place_pauses place_pause
place_pauses-counts marks ends [] p reads = (omega arith, omega arith)
place_pauses-counts marks ends (x ∷ pauses) p reads =
    let (at, inside) = place_pauses-counts marks ends pauses (place_pause marks x p) reads in
    ground (arith, reads x.after_word_index, at, inside)

-- If the parser gives one token for each word, then every word of the part has one mark, whether it
-- is the right edge of its subtree in the parse of its own utterance; the pauses at a clause
-- boundary are those long enough to end an utterance and those after a word marked so, and all
-- other pauses are inside a clause.
pub classify_pause_placement_counts :
    (parse_words : List String → Doc) (words : List TranscriptWord) (pauses : List Pause)
    → ((ws : List String) → length (parse_words ws) ≡ length ws)
    → let ends = clause_ends parse_words (segment_into_utterances chunking_pause_threshold words) in
      let p = classify_pause_placement parse_words words pauses in
      (length ends ≡ length words)
      × (p.clause_boundary ≡ length (select (is_at_boundary ends) pauses))
      × (p.mid_clause ≡ length (select (is_inside ends) pauses))
unfolding classify_pause_placement is_boundary_after
classify_pause_placement_counts parse_words words pauses one_each =
    let chunks = segment_into_utterances chunking_pause_threshold words in
    let reads = mark_chunks-Reads parse_words one_each 0 chunks [] [] refl (λ i. refl) in
    let (at, inside) =
      place_pauses-counts (mark_chunks parse_words 0 chunks []) (clause_ends parse_words chunks)
        pauses (record { clause_boundary = 0; mid_clause = 0 }) reads in
    (
      length-clause_ends parse_words one_each chunks
          ∙ ap length (segment_into_utterances-concat chunking_pause_threshold words),
      omega (arith, at),
      omega (arith, inside),
    )
