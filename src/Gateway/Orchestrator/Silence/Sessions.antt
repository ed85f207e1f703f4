-- ===== src/Gateway/Orchestrator/Silence/Sessions.antt =====
-- The candidate's microphone in the preparation phase of Part 2, along the steps of a session
-- (exam_orchestrator.py).
use session_replica_ielt.Prelude.{ℕ, ◌≡◌, refl, sym, ◌∙◌, List, [], ◌∷◌, arith, Bool, true}
use session_replica_ielt.Fsm
use session_replica_ielt.Fsm.{ExamPhase, ExamEvent, reached, invalid}
use session_replica_ielt.Gateway.Exceptions.{Result, ok, err}
use session_replica_ielt.Gateway.Settings.{Settings}
use session_replica_ielt.Gateway.Timers
use session_replica_ielt.Gateway.LongTurn.{inject_warning}
use session_replica_ielt.Gateway.Bridge.{
  Directive, reanchor, inject_directive, send, send_audio_frame, force_mute_input,
}
use session_replica_ielt.Gateway.Orchestrator.State.{
  State, Task, Action, ⊤, pure, ◌>>◌, queue_directive, Watchdog, Stage, part1, prep, long_turn,
  part3, finalizing, begun, waiting, expired,
}
use session_replica_ielt.Gateway.Orchestrator.Advance.{advance, push_timer_deadline, start_watchdog}
use session_replica_ielt.Gateway.Orchestrator.Triggers.{
  on_turn_flush_started, on_turn_flush_complete,
}
use session_replica_ielt.Gateway.Orchestrator.Watchdogs.{
  piece, run_task, settle, Next, stay, finished, is_part1, poll, read_deadline, poll_phases,
  poll_cutoff, poll_flushes, long_turn_round, on_bridge, part1_expired, prep_expired,
  long_turn_expired, part3_expired, finalizing_expired, is_part3_discussion,
}
use session_replica_ielt.Gateway.Orchestrator.Lifecycle.{
  new_connection, start, start_in, resume_phase, repush_live_deadline, bootstrap_fresh_session,
  close, dispatch_directive, dispatch_next,
}
use session_replica_ielt.Gateway.Orchestrator.Steps.{
  Step, activity_end, gemini_turn_complete, cue_card_ack, flush_started, flush_complete, task,
  directive, tick, broker, disconnect, reconnect, Reach, here, next,
}
use session_replica_ielt.Gateway.Orchestrator.Agreement.Sessions.{
  Reach-Coherent, start-new_connection,
}
use session_replica_ielt.Gateway.Orchestrator.Coherence.{Coherent, advance-Keeps, Keeps}
use session_replica_ielt.Gateway.Orchestrator.Silence.{
  Quiet, Hushes, advance-Hushes, on_activity_end-Hushes, on_gemini_turn_complete-Hushes,
  on_cue_card_ack-Hushes, prep_expired-Hushes, long_turn_expired-Hushes, part3_expired-Hushes,
  finalizing_expired-Hushes, part1_expired-Hushes,
}

continue-Quiet :
    {A B : Type 0} (n : Action B)
    → Hushes n
    → (r : Result A × State) → Coherent r.1
    → Quiet r.1
    → Quiet (((λ w. r) >> n) r.1).1
continue-Quiet n h (ok a, w) c quiet = h w c quiet
continue-Quiet n h (err e, w) c quiet = quiet

>>-Hushes :
    {A B : Type 0} (m : Action A) (n : Action B) → Keeps m → Hushes m → Hushes n → Hushes (m >> n)
>>-Hushes m n k h hn w c quiet = continue-Quiet n hn (m w) (k w c) (h w c quiet)

continue-last : (r : Result ⊤ × State) → Quiet r.1 → Quiet (((λ w. r) >> pure finished) r.1).1
continue-last (ok a, w) quiet = quiet
continue-last (err e, w) quiet = quiet

last-Hushes : (m : Action ⊤) → Hushes m → Hushes (m >> pure finished)
last-Hushes m h w c quiet = continue-last (m w) (h w c quiet)

poll_phases-Hushes :
    (deadline : ℕ) (phases : ExamPhase → Bool) → Hushes (poll_phases deadline phases)
unfolding poll_phases poll
poll_phases-Hushes deadline phases w c quiet = ground (arith, quiet)

poll_cutoff-Hushes : (cfg : Settings) (d : ℕ) (warned : Bool) → Hushes (poll_cutoff cfg d warned)
unfolding poll_cutoff poll long_turn_round on_bridge inject_warning inject_directive send
    force_mute_input
poll_cutoff-Hushes cfg d warned w c quiet = ground (arith, quiet)

poll_flushes-Hushes : (cfg : Settings) (d : ℕ) → Hushes (poll_flushes cfg d)
unfolding poll_flushes
poll_flushes-Hushes cfg d w c quiet =
    ground
      (arith, quiet, last-Hushes (finalizing_expired cfg) (finalizing_expired-Hushes cfg) w c quiet)

piece-Hushes : (cfg : Settings) (k : Watchdog) (s : Stage) → Hushes (piece cfg k s)
unfolding piece read_deadline
piece-Hushes cfg part1 begun = λ w c quiet. quiet
piece-Hushes cfg prep begun = λ w c quiet. quiet
piece-Hushes cfg long_turn begun = λ w c quiet. quiet
piece-Hushes cfg part3 begun = λ w c quiet. quiet
piece-Hushes cfg finalizing begun = λ w c quiet. quiet
piece-Hushes cfg part1 (waiting d warned) = poll_phases-Hushes d is_part1
piece-Hushes cfg prep (waiting d warned) = poll_phases-Hushes d Timers.is_part2_prep
piece-Hushes cfg long_turn (waiting d warned) = poll_cutoff-Hushes cfg d warned
piece-Hushes cfg part3 (waiting d warned) = poll_phases-Hushes d is_part3_discussion
piece-Hushes cfg finalizing (waiting d warned) = poll_flushes-Hushes cfg d
piece-Hushes cfg part1 expired = last-Hushes (part1_expired cfg) (part1_expired-Hushes cfg)
piece-Hushes cfg prep expired = last-Hushes (prep_expired cfg) (prep_expired-Hushes cfg)
piece-Hushes cfg long_turn expired =
    last-Hushes (long_turn_expired cfg) (long_turn_expired-Hushes cfg)
piece-Hushes cfg part3 expired = last-Hushes (part3_expired cfg) (part3_expired-Hushes cfg)
piece-Hushes cfg finalizing expired = λ w c quiet. quiet

settle-Quiet : (i : ℕ) (r : Result Next × State) → Quiet r.1 → Quiet (settle i r).1
unfolding settle
settle-Quiet i (ok (stay s), w) quiet = quiet
settle-Quiet i (ok finished, w) quiet = quiet
settle-Quiet i (err e, w) quiet = quiet

run_task-Hushes : (cfg : Settings) (t : Task) → Hushes (run_task cfg t)
unfolding run_task
run_task-Hushes cfg t w c quiet =
    settle-Quiet t.id (piece cfg t.watchdog t.stage w)
      (piece-Hushes cfg t.watchdog t.stage w c quiet)

resume_prep-muted : (w : State) → (resume_phase Fsm.part2_prep w).1.bridge.input_muted ≡ true
unfolding resume_phase repush_live_deadline start_watchdog force_mute_input push_timer_deadline
resume_prep-muted w = ground arith

resume_phase-phase : (p : ExamPhase) (w : State) → (resume_phase p w).1.phase ≡ w.phase
unfolding resume_phase
resume_phase-phase p w = ground arith

start_in-Quiet :
    (cfg : Settings) (p : ExamPhase) (w : State)
    → Coherent w
    → w.phase ≡ p
    → Quiet (start_in cfg p w).1
unfolding start_in bootstrap_fresh_session
start_in-Quiet cfg Fsm.init_device_check w c at =
    >>-Hushes (advance cfg Fsm.device_check_confirmed "auto_pass_no_device_check_ui" true)
      (advance cfg Fsm.id_verified "auto_pass_no_id_verification_ui" true)
      (advance-Keeps cfg Fsm.device_check_confirmed "auto_pass_no_device_check_ui" true)
      (advance-Hushes cfg Fsm.device_check_confirmed "auto_pass_no_device_check_ui")
      (advance-Hushes cfg Fsm.id_verified "auto_pass_no_id_verification_ui") w c
      (λ there. absurd (ground (arith, at, there)))
start_in-Quiet cfg Fsm.part2_prep w c at = λ there. resume_prep-muted (queue_directive reanchor w).1
start_in-Quiet cfg p w c at = λ there.
    absurd
      (ground (arith, sym at ∙ sym (resume_phase-phase p (queue_directive reanchor w).1) ∙ there))

reconnect-Quiet : (cfg : Settings) (w : State) → Coherent w → Quiet (start cfg (new_connection w)).1
unfolding new_connection
reconnect-Quiet cfg w c = rw (start-new_connection cfg w c) (
    start_in-Quiet cfg w.phase (record (new_connection w) { phase = w.phase })
      (record { ordered = c.ordered; cached = c.cached }) refl)

dispatch_next-Quiet :
    (timed_out : Bool) (ds : List Directive) (w : State)
    → Quiet w
    → Quiet (dispatch_next timed_out ds w).1
unfolding dispatch_next inject_directive send
dispatch_next-Quiet timed_out [] w quiet = quiet
dispatch_next-Quiet timed_out (d ∷ ds) w quiet = ground (arith, quiet)

Step-Quiet : (cfg : Settings) {u v : State} → Step cfg u v → Coherent u → Quiet u → Quiet v
unfolding on_turn_flush_started on_turn_flush_complete close dispatch_directive
Step-Quiet cfg (activity_end w) c quiet = on_activity_end-Hushes cfg w c quiet
Step-Quiet cfg (gemini_turn_complete w) c quiet = on_gemini_turn_complete-Hushes cfg w c quiet
Step-Quiet cfg (cue_card_ack w) c quiet = on_cue_card_ack-Hushes cfg w c quiet
Step-Quiet cfg (flush_started i w) c quiet = quiet
Step-Quiet cfg (flush_complete i w) c quiet = quiet
Step-Quiet cfg (task t w m) c quiet = run_task-Hushes cfg t w c quiet
Step-Quiet cfg (directive timed_out w) c quiet =
    dispatch_next-Quiet timed_out w.directive_queue w quiet
Step-Quiet cfg (tick ms w) c quiet = quiet
Step-Quiet cfg (broker up w) c quiet = quiet
Step-Quiet cfg (disconnect w) c quiet = quiet
Step-Quiet cfg (reconnect w) c quiet = reconnect-Quiet cfg w c

Reach-Quiet : (cfg : Settings) {u v : State} → Reach cfg u v → Coherent u → Quiet u → Quiet v
Reach-Quiet cfg here c quiet = quiet
Reach-Quiet cfg (next r s) c quiet =
    Step-Quiet cfg s (Reach-Coherent cfg r c) (Reach-Quiet cfg r c quiet)

-- From a coherent state whose input is muted if it is in the preparation phase, whatever steps
-- follow: in the preparation phase of Part 2 no audio of the candidate goes to the examiner.
pub prep_is_silent :
    (cfg : Settings) {u v : State}
    → Coherent u
    → (u.phase ≡ Fsm.part2_prep → u.bridge.input_muted ≡ true)
    → Reach cfg u v
    → v.phase ≡ Fsm.part2_prep
    → (pcm_bytes : List ℕ) → send_audio_frame pcm_bytes v.bridge ≡ (ok tt, v.bridge)
unfolding send_audio_frame
prep_is_silent cfg c quiet r there pcm_bytes = rw (Reach-Quiet cfg r c quiet there) refl
