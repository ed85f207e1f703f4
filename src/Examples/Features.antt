-- ===== src/Examples/Features.antt =====
-- The features of a session and the calibration of the judge, tried on concrete inputs.
use session_replica_ielt.Prelude.{
  ℕ, suc, ◌+◌, ◌*◌, ◌-◌, ◌≡◌, refl, ap, ◌==◌, ltb, ◌↔◌, true, String, Option, some, List, [], ◌∷◌,
  ◌++◌, map, length, select, All, if◌then◌else◌,
}
use session_replica_ielt.Prelude.Text.{Word, codes}
use session_replica_ielt.Fsm
use session_replica_ielt.Fsm.{ExamPhase}
use session_replica_ielt.Worker.Judge
use session_replica_ielt.Worker.Judge.{Criterion}
use session_replica_ielt.Worker.Parse
use session_replica_ielt.Worker.Parse.{Dep, Token, Doc}
use session_replica_ielt.Worker.Checker.{GrammarError, Checker}
use session_replica_ielt.Worker.Asr.{Transcript}
use session_replica_ielt.Worker.Utterances.{TranscriptWord, segment_into_utterances}
use session_replica_ielt.Worker.Scoring.{session, find_vector}
use session_replica_ielt.Worker.Grammar.TUnits.{t_unit_heads, contains}
use session_replica_ielt.Worker.Grammar.Heads.{IsHead}
use session_replica_ielt.Worker.Grammar.Closure.{t_unit_heads_iff}
use session_replica_ielt.Worker.Grammar.Metrics as Grammar
use session_replica_ielt.Worker.Grammar.Totals.{InRange}
use session_replica_ielt.Worker.Features.Writes.{session_words}
use session_replica_ielt.Worker.Features.Tasks.{
  load_words_by_phase, compute_grammar_metrics, compute_grammar_metrics_returns,
}
use session_replica_ielt.Worker.Fluency.Breaks.{
  detect_pauses, classify_pause_placement, chunking_pause_threshold,
}
use session_replica_ielt.Worker.Fluency.Placement.{
  clause_ends, is_at_boundary, is_inside, classify_pause_placement_counts,
}
use session_replica_ielt.Worker.Lexical.Diversity.{mtld_factors, factors_of}
use session_replica_ielt.Worker.Lexical.Walks.{concat, Stays, Drops, seen, mtld_factors_segments}

-- "I ran and I fell": the second verb is a conjunct with a subject of its own.
abbrev token : ℕ → Dep → ℕ → String → Token
token i dep head text = record {
  i = i;
  dep = dep;
  head = head;
  right_edge = i;
  pos = Parse.verb;
  tag = Parse.vbd;
  text = text;
  lower = text;
  lemma = text;
}

abbrev two_clauses : Doc
two_clauses =
    token 0 Parse.nsubj 1 "i"
    ∷ token 1 Parse.root 1 "ran"
    ∷ token 2 Parse.other_dep 1 "and"
    ∷ token 3 Parse.nsubj 4 "i"
    ∷ token 4 Parse.conj 1 "fell"
    ∷ []

two_heads : t_unit_heads two_clauses ≡ some (4 ∷ 1 ∷ [])
unfolding t_unit_heads
two_heads = refl

t_unit_heads_iff_example :
    (heads : List ℕ) × (t_unit_heads two_clauses ≡ some heads)
    × ((i : ℕ) → (contains heads i ≡ true) ↔ ∥ IsHead two_clauses i ∥₁)
t_unit_heads_iff_example = t_unit_heads_iff two_clauses

abbrev word : ℕ → String → ℕ → ℕ → TranscriptWord
word turn_id text start_ms end_ms = record {
  turn_id = turn_id;
  seq = start_ms;
  word = text;
  start_ms = start_ms;
  end_ms = end_ms;
}

-- Pauses of 400 ms inside the first utterance, of 700 ms after it and of 300 ms in the second one.
abbrev spoken : List TranscriptWord
spoken =
    word 1 "i" 0 200 ∷ word 1 "ran" 600 800 ∷ word 1 "and" 1500 1700 ∷ word 1 "fell" 2000 2200 ∷ []

abbrev parsed_as : List String → Doc
parsed_as words = two_clauses

-- A token for each word; the first one's subtree goes on to the second.
abbrev word_token : ℕ → String → Token
word_token i text = record (token i Parse.other_dep i text) { right_edge = if i == 0 then 1 else i }

abbrev parsed_from : ℕ → List String → Doc
parsed_from i [] = []
parsed_from i (w ∷ ws) = word_token i w ∷ parsed_from (i + 1) ws

parsed_from-length : (i : ℕ) (ws : List String) → length (parsed_from i ws) ≡ length ws
parsed_from-length i [] = refl
parsed_from-length i (w ∷ ws) = ap suc (parsed_from-length (i + 1) ws)

classify_pause_placement_counts_example :
    let ends =
      clause_ends (parsed_from 0) (segment_into_utterances chunking_pause_threshold spoken) in
    let p = classify_pause_placement (parsed_from 0) spoken (detect_pauses spoken) in
    (length ends ≡ 4)
    × (p.clause_boundary ≡ length (select (is_at_boundary ends) (detect_pauses spoken)))
    × (p.mid_clause ≡ length (select (is_inside ends) (detect_pauses spoken)))
classify_pause_placement_counts_example =
    classify_pause_placement_counts (parsed_from 0) spoken (detect_pauses spoken)
      (parsed_from-length 0)

abbrev said : List Word
said = map codes ("so" ∷ "so" ∷ "so" ∷ "i" ∷ "ran" ∷ "i" ∷ "ran" ∷ "home" ∷ "and" ∷ "slept" ∷ [])

mtld_factors_segments_example :
    (factors : List (List Word)) × (rest : List Word) × (concat factors ++ rest ≡ said)
    × All (Drops [] 0) factors
    × Stays [] 0 rest
    × (mtld_factors said
        ≡ factors_of (record {
          factor_count = length factors;
          types = seen [] rest;
          token_count = length rest;
        }))
    × ((mtld_factors said).num
        ≡ length factors * (mtld_factors said).den + 25 * (length rest - length (seen [] rest)))
    × ((mtld_factors said).den ≡ (if ltb 0 (length rest) then 7 * length rest else 1))
mtld_factors_segments_example = mtld_factors_segments said

abbrev agreement_error : GrammarError
agreement_error = record { category = "GRAMMAR"; rule_id = "SUBJECT_VERB_AGREEMENT" }

abbrev strict : Checker
strict text = some (agreement_error ∷ [])

abbrev transcript : List Transcript
transcript =
    record {
      session_id = 7;
      turn_id = 1;
      seq = 0;
      word = "fell";
      start_ms = 800;
      end_ms = 1000;
      confidence = 900;
      source = "deepgram";
      speaker = "candidate";
    }
    ∷ []

abbrev in_topic_a : ℕ → Option ExamPhase
in_topic_a turn_id = some Fsm.part1_topic_a

abbrev encode : ℕ → Grammar.GrammarMetrics → String
encode n m = if n == 0 then "silent" else "spoken"

compute_grammar_metrics_returns_example :
    let words = session_words (load_words_by_phase in_topic_a 7 transcript) in
    let (returned, after) =
      compute_grammar_metrics parsed_as in_topic_a 7 transcript strict encode [] in
    (returned ≡ true)
    × ((m : Grammar.GrammarMetrics) × (Grammar.metrics_for_words parsed_as strict words ≡ some m)
        × InRange m
        × (find_vector 7 Judge.grammatical_range_accuracy session after
            ≡ some (encode (length words) m)))
compute_grammar_metrics_returns_example =
    compute_grammar_metrics_returns parsed_as strict (λ text. (agreement_error ∷ [], refl))
      in_topic_a 7 transcript encode []
