-- ===== src/Gateway/Orchestrator/Triggers.antt =====
-- The external triggers of exam_orchestrator.py: the candidate's turns, Gemini's turns, the cue
-- card's acknowledgement and the flushes of recorded turns.
use session_replica_ielt.Prelude.{
  ℕ, ◌+◌, Bool, true, false, not, ◌&&◌, Option, none, some, List, ◌∷◌, ◌==◌, ltb, leb,
  if◌then◌else◌, any, select,
}
use session_replica_ielt.Fsm
use session_replica_ielt.Fsm.{ExamPhase, ExamEvent}
use session_replica_ielt.Gateway.Settings.{Settings}
use session_replica_ielt.Gateway.Bridge.{part1_extend, reanchor}
use session_replica_ielt.Gateway.LongTurn.{is_part2_long_turn}
use session_replica_ielt.Gateway.Orchestrator.State.{
  Action, ⊤, pure, gets, ◌>>=◌, ◌>>◌, modify, queue_directive,
}
use session_replica_ielt.Gateway.Orchestrator.Advance.{advance}

-- `_candidate_turn_budget_for_phase`
unfoldable pub candidate_turn_budget_for_phase : Settings → ExamPhase → Option (ExamEvent × ℕ)
candidate_turn_budget_for_phase cfg Fsm.intro = some (Fsm.intro_complete, cfg.intro_turns)
candidate_turn_budget_for_phase cfg Fsm.part1_topic_a =
    some (Fsm.topic_a_complete, cfg.part1_topic_turns)
candidate_turn_budget_for_phase cfg Fsm.part1_topic_b =
    some (Fsm.topic_b_complete, cfg.part1_topic_turns)
candidate_turn_budget_for_phase cfg Fsm.part1_topic_c =
    some (Fsm.topic_c_complete, cfg.part1_topic_turns)
candidate_turn_budget_for_phase cfg Fsm.part2_roundoff =
    some (Fsm.roundoff_complete, cfg.part2_roundoff_turns)
candidate_turn_budget_for_phase cfg Fsm.part3_discussion =
    some (Fsm.discussion_complete, cfg.part3_discussion_turns)
candidate_turn_budget_for_phase cfg _ = none

abbrev pub is_part1_topic_c : ExamPhase → Bool
is_part1_topic_c Fsm.part1_topic_c = true
is_part1_topic_c _ = false

-- `start is not None and time.time() - start < part1_min_seconds`
abbrev pub below_floor : Settings → ℕ → Option ℕ → Bool
below_floor cfg now none = false
below_floor cfg now (some start) = ltb now (start + cfg.part1_min_ms)

-- An injection that also resets the count of turns since the last one.
abbrev pub anchor : Action ⊤
anchor = modify (λ w. record w { turns_since_reanchor = 0 })

-- The rest of `on_activity_end` once the turn is counted.
unfoldable pub after_counted_turn : Settings → ExamEvent → ℕ → Action ⊤
after_counted_turn cfg event budget w =
    let budget_reached = leb budget w.turns_in_phase in
    if budget_reached
    then (if is_part1_topic_c w.phase && below_floor cfg w.now w.part1_start_ts
        then (queue_directive part1_extend >> anchor) w
        else advance cfg event "turn_budget_reached" true w)
    else (if leb cfg.reanchor_every_n_turns w.turns_since_reanchor
        then (queue_directive reanchor >> anchor) w
        else pure tt w)

abbrev pub count_turn : Action ⊤
count_turn = modify (λ w. record w {
  turns_in_phase = w.turns_in_phase + 1;
  turns_since_reanchor = w.turns_since_reanchor + 1;
})

unfoldable pub on_counted_turn : Settings → Option (ExamEvent × ℕ) → Action ⊤
unfolding after_counted_turn
on_counted_turn cfg none = pure tt
on_counted_turn cfg (some (event, budget)) = count_turn >> after_counted_turn cfg event budget

-- `on_activity_end`
unfoldable pub on_activity_end : Settings → Action ⊤
unfolding on_counted_turn candidate_turn_budget_for_phase
on_activity_end cfg = do
  modify (λ w. record w { gemini_idle = false })
  phase ← gets (λ w. w.phase)
  (if is_part2_long_turn phase
      then advance cfg Fsm.long_turn_ended "candidate_released_ptt" true
      else on_counted_turn cfg (candidate_turn_budget_for_phase cfg phase))

abbrev pub is_close : ExamPhase → Bool
is_close Fsm.close = true
is_close _ = false

-- `on_gemini_turn_complete`
unfoldable pub on_gemini_turn_complete : Settings → Action ⊤
on_gemini_turn_complete cfg = do
  modify (λ w. record w { gemini_idle = true })
  phase ← gets (λ w. w.phase)
  (if is_close phase then advance cfg Fsm.close_delivered "close_delivered" true else pure tt)

abbrev pub is_cuecard_present : ExamPhase → Bool
is_cuecard_present Fsm.part2_cuecard_present = true
is_cuecard_present _ = false

-- `on_cue_card_ack`
unfoldable pub on_cue_card_ack : Settings → Action ⊤
on_cue_card_ack cfg = do
  phase ← gets (λ w. w.phase)
  (if is_cuecard_present phase
      then advance cfg Fsm.cue_card_acked "cue_card_acked" true
      else pure tt)

abbrev pub has : ℕ → List ℕ → Bool
has i xs = any (λ x. x == i) xs

-- `on_turn_flush_started`: `set.add`, and the phase of the turn.
unfoldable pub on_turn_flush_started : ℕ → Action ExamPhase
on_turn_flush_started turn_id = do
  modify (λ w. record w {
    pending_flush_turn_ids =
        if has turn_id w.pending_flush_turn_ids
        then w.pending_flush_turn_ids
        else turn_id ∷ w.pending_flush_turn_ids;
  })
  gets (λ w. w.phase)

-- `on_turn_flush_complete`: `set.discard`
unfoldable pub on_turn_flush_complete : ℕ → Action ⊤
on_turn_flush_complete turn_id = modify (λ w. record w {
  pending_flush_turn_ids = select (λ x. not (x == turn_id)) w.pending_flush_turn_ids;
})
