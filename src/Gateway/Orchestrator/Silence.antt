-- ===== src/Gateway/Orchestrator/Silence.antt =====
-- The candidate's microphone in the preparation phase of Part 2: the triggers and the expired
-- watchdogs (exam_orchestrator.py).
pub mod Sessions
use session_replica_ielt.Prelude.{
  ℕ, ◌≡◌, refl, sym, ◌∙◌, Option, none, some, List, [], ◌∷◌, arith, Bool, true, false, String,
  subst, Bool-cases, Option-cases, inl, inr,
}
use session_replica_ielt.Fsm
use session_replica_ielt.Fsm.{ExamPhase, ExamEvent, reached, invalid}
use session_replica_ielt.Fsm.Path.{Outcome-cases}
use session_replica_ielt.Gateway.Exceptions.{Result, ok, err}
use session_replica_ielt.Gateway.Settings.{Settings}
use session_replica_ielt.Gateway.Timers
use session_replica_ielt.Gateway.LongTurn.{inject_warning}
use session_replica_ielt.Gateway.Bridge.{
  Directive, reanchor, part1_wrap_up, inject_directive, send, send_audio_frame, force_mute_input,
}
use session_replica_ielt.Gateway.Orchestrator.State.{
  State, Task, Action, ⊤, pure, ◌>>◌, queue_directive, Watchdog, Stage, part1, prep, long_turn,
  part3, finalizing, begun, waiting, expired,
}
use session_replica_ielt.Gateway.Orchestrator.Advance.{
  advance, advance_within, after_transition, on_enter_phase, enter_prep, set_deadline,
  push_timer_deadline, start_watchdog,
}
use session_replica_ielt.Gateway.Orchestrator.Triggers.{
  on_activity_end, on_counted_turn, after_counted_turn, candidate_turn_budget_for_phase,
  on_gemini_turn_complete, on_cue_card_ack, count_turn, on_turn_flush_started,
  on_turn_flush_complete,
}
use session_replica_ielt.Gateway.Orchestrator.Watchdogs.{
  skip_part1, part1_completion_event, piece, run_task, settle, Next, stay, finished, is_part1, poll,
  read_deadline, poll_phases, poll_cutoff, poll_flushes, long_turn_round, on_bridge, part1_expired,
  prep_expired, long_turn_expired, part3_expired, finalizing_expired, is_part3_discussion,
  clear_deadline,
}
use session_replica_ielt.Gateway.Orchestrator.Lifecycle.{
  new_connection, start, start_in, resume_phase, repush_live_deadline, bootstrap_fresh_session,
  close, dispatch_directive, dispatch_next,
}
use session_replica_ielt.Gateway.Orchestrator.Steps.{
  Step, activity_end, gemini_turn_complete, cue_card_ack, flush_started, flush_complete, task,
  directive, tick, broker, disconnect, reconnect, Reach, here, next,
}
use session_replica_ielt.Gateway.Orchestrator.Agreement.Sessions.{
  Reach-Coherent, start-new_connection,
}
use session_replica_ielt.Gateway.Orchestrator.Timeouts.{part1_expired_reaches_part2}
use session_replica_ielt.Gateway.Orchestrator.Coherence.{
  Coherent, moved_to, commit_legal, advance-Keeps, Keeps,
}
use session_replica_ielt.Gateway.Orchestrator.Moves.{settled, advance_settles, advance_illegal}

-- In the preparation phase the input is muted.
abbrev pub Quiet : State → Type 0
Quiet w = w.phase ≡ Fsm.part2_prep → w.bridge.input_muted ≡ true

-- An action that keeps a coherent state quiet.
abbrev pub Hushes : {A : Type 0} → Action A → Type 0
Hushes m = (w : State) → Coherent w → Quiet w → Quiet (m w).1

enter_prep-muted : (cfg : Settings) (w : State) → (enter_prep cfg w).1.bridge.input_muted ≡ true
unfolding enter_prep set_deadline push_timer_deadline start_watchdog force_mute_input
enter_prep-muted cfg w = refl

settled-prep :
    (q : ExamPhase) (pending : List ℕ) → settled q pending ≡ Fsm.part2_prep → q ≡ Fsm.part2_prep
settled-prep q pending h = ground (arith, h)

advance-prep :
    (cfg : Settings) (event : ExamEvent) (reason : String) (w : State)
    → Coherent w
    → Fsm.transition w.phase event ≡ reached Fsm.part2_prep
    → (advance cfg event reason true w).1.bridge.input_muted ≡ true
unfolding advance advance_within after_transition on_enter_phase
advance-prep cfg event reason w c legal =
    rw (commit_legal w c event reason legal)
      (enter_prep-muted cfg (moved_to event reason Fsm.part2_prep w))

-- A move leaves the driver quiet: preparation is entered with the mute.
pub advance-Hushes :
    (cfg : Settings) (event : ExamEvent) (reason : String) → Hushes (advance cfg event reason true)
advance-Hushes cfg event reason w c quiet = elim (Outcome-cases (Fsm.transition w.phase event)) [
  | inr (x, illegal) ↦ rw (advance_illegal cfg event reason true w c illegal) quiet
  | inl (q, legal) ↦ λ there.
      let same : q ≡ Fsm.part2_prep =
        settled-prep q w.pending_flush_turn_ids
          (sym (advance_settles cfg event reason w c legal) ∙ there) in
      advance-prep cfg event reason w c
        (subst (λ p. Fsm.transition w.phase event ≡ reached p) same legal)
]

after_counted_turn-Hushes :
    (cfg : Settings) (event : ExamEvent) (budget : ℕ) → Hushes (after_counted_turn cfg event budget)
unfolding after_counted_turn
after_counted_turn-Hushes cfg event budget w c quiet =
    ground (arith, quiet, advance-Hushes cfg event "turn_budget_reached" w c quiet)

on_counted_turn-Hushes :
    (cfg : Settings) (entry : Option (ExamEvent × ℕ)) → Hushes (on_counted_turn cfg entry)
unfolding on_counted_turn
on_counted_turn-Hushes cfg none w c quiet = quiet
on_counted_turn-Hushes cfg (some (event, budget)) w c quiet =
    after_counted_turn-Hushes cfg event budget (count_turn w).1
      (record { ordered = c.ordered; cached = c.cached }) quiet

pub on_activity_end-Hushes : (cfg : Settings) → Hushes (on_activity_end cfg)
unfolding on_activity_end
on_activity_end-Hushes cfg w c quiet =
    let v : State = record w { gemini_idle = false } in
    let d : Coherent v = record { ordered = c.ordered; cached = c.cached } in
    ground (
      arith,
      advance-Hushes cfg Fsm.long_turn_ended "candidate_released_ptt" v d quiet,
      on_counted_turn-Hushes cfg (candidate_turn_budget_for_phase cfg w.phase) v d quiet,
    )

pub on_gemini_turn_complete-Hushes : (cfg : Settings) → Hushes (on_gemini_turn_complete cfg)
unfolding on_gemini_turn_complete
on_gemini_turn_complete-Hushes cfg w c quiet =
    let v : State = record w { gemini_idle = true } in
    let d : Coherent v = record { ordered = c.ordered; cached = c.cached } in
    ground (arith, quiet, advance-Hushes cfg Fsm.close_delivered "close_delivered" v d quiet)

pub on_cue_card_ack-Hushes : (cfg : Settings) → Hushes (on_cue_card_ack cfg)
unfolding on_cue_card_ack
on_cue_card_ack-Hushes cfg w c quiet =
    ground (arith, quiet, advance-Hushes cfg Fsm.cue_card_acked "cue_card_acked" w c quiet)

pub prep_expired-Hushes : (cfg : Settings) → Hushes (prep_expired cfg)
unfolding prep_expired
prep_expired-Hushes cfg w c quiet =
    advance-Hushes cfg Fsm.prep_timer_expired "prep_timer_expired" _
      (record { ordered = c.ordered; cached = c.cached }) quiet

pub long_turn_expired-Hushes : (cfg : Settings) → Hushes (long_turn_expired cfg)
unfolding long_turn_expired
long_turn_expired-Hushes cfg w c quiet =
    advance-Hushes cfg Fsm.long_turn_ended "hard_cutoff" _
      (record { ordered = c.ordered; cached = c.cached }) quiet

pub part3_expired-Hushes : (cfg : Settings) → Hushes (part3_expired cfg)
unfolding part3_expired
part3_expired-Hushes cfg w c quiet =
    advance-Hushes cfg Fsm.discussion_complete "part3_dynamic_timer_expired" _
      (record { ordered = c.ordered; cached = c.cached }) quiet

pub finalizing_expired-Hushes : (cfg : Settings) → Hushes (finalizing_expired cfg)
unfolding finalizing_expired
finalizing_expired-Hushes cfg w c quiet = ground (
  arith,
  quiet,
  advance-Hushes cfg Fsm.finalize_complete "media_flush_drained" w c quiet,
  advance-Hushes cfg Fsm.finalize_complete "finalizing_watchdog_timeout" w c quiet,
)

skipped : (cfg : Settings) (w : State) → is_part1 w.phase ≡ false → skip_part1 3 cfg w ≡ (ok tt, w)
unfolding skip_part1 part1_completion_event
skipped cfg w outside = elim (Option-cases (part1_completion_event w.phase)) [
  | inl out ↦ rw (out, skip_part1) refl
  | inr (event, inside) ↦ absurd (ground (arith, inside, outside))
]

pub part1_expired-Hushes : (cfg : Settings) → Hushes (part1_expired cfg)
unfolding part1_expired clear_deadline
part1_expired-Hushes cfg w c quiet = elim (Bool-cases (is_part1 w.phase)) [
  | inl inside ↦ λ there. absurd (ground (arith, part1_expired_reaches_part2 cfg w c inside, there))
  | inr outside ↦
      rw
        (skipped cfg (queue_directive part1_wrap_up (clear_deadline Timers.part1_max w).1).1
          outside)
        quiet
]
