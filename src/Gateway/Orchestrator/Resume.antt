-- ===== src/Gateway/Orchestrator/Resume.antt =====
-- What a reconnection of exam_orchestrator.py restores, and what it loses.
use session_replica_ielt.Prelude.{
  ℕ, ◌≡◌, refl, ◌∙◌, List, [], ◌∷◌, arith, Bool, true, false, String, subst, select,
}
use session_replica_ielt.Prelude.Dict.{lookup}
use mathlib.Core.List.{Memᴰ}
use session_replica_ielt.Fsm
use session_replica_ielt.Fsm.{ExamPhase, ExamEvent, reached}
use session_replica_ielt.Gateway.Exceptions.{ok, err, key_error}
use session_replica_ielt.Gateway.Settings.{Settings}
use session_replica_ielt.Gateway.Bridge.{Directive, inject_directive}
use session_replica_ielt.Gateway.Orchestrator.State.{State, Task}
use session_replica_ielt.Gateway.Orchestrator.Advance.{advance}
use session_replica_ielt.Gateway.Orchestrator.Triggers.{
  on_activity_end, on_counted_turn, on_gemini_turn_complete, on_cue_card_ack, on_turn_flush_started,
  on_turn_flush_complete, candidate_turn_budget_for_phase,
}
use session_replica_ielt.Gateway.Orchestrator.Lifecycle.{
  new_connection, start, start_in, resume_phase, resume_part1, repush_live_deadline, close,
  dispatch_directive, dispatch_next,
}
use session_replica_ielt.Gateway.Orchestrator.Coherence.{Coherent, moved_to}
use session_replica_ielt.Gateway.Orchestrator.Agreement.Sessions.{
  Step-Coherent, start-new_connection,
}
use session_replica_ielt.Gateway.Orchestrator.Moves.{advance_no_topic}
use session_replica_ielt.Gateway.Orchestrator.Steps.{
  Step, activity_end, gemini_turn_complete, cue_card_ack, flush_started, flush_complete, task,
  directive, tick, broker, disconnect, reconnect, Reach, here, next,
}

-- A session in FINALIZING with no task left to leave it.
pub record Stuck (queue : List ℕ) (w : State) : Type 0 where
  pub coherent : Coherent w
  pub at : w.phase ≡ Fsm.finalizing
  pub idle : w.tasks ≡ []
  pub graded : w.grading_queue ≡ queue

same-Stuck :
    {queue : List ℕ} (w v : State)
    → Stuck queue w
    → Coherent v
    → v.phase ≡ w.phase × v.tasks ≡ [] × v.grading_queue ≡ w.grading_queue
    → Stuck queue v
same-Stuck w v k c (p, t, g) = record {
  coherent = c;
  at = p ∙ k.at;
  idle = t;
  graded = g ∙ k.graded;
}

dispatch_next-Stuck :
    (queue : List ℕ) (timed_out : Bool) (ds : List Directive) (w : State)
    → Stuck queue w
    → (coherent : Coherent (dispatch_next timed_out ds w).1)
    → Stuck queue (dispatch_next timed_out ds w).1
unfolding dispatch_next inject_directive
dispatch_next-Stuck queue timed_out [] w k c = k
dispatch_next-Stuck queue timed_out (d ∷ ds) w k c = record {
  coherent = c;
  at = ground (arith, k.at);
  idle = ground (arith, k.idle);
  graded = ground (arith, k.graded);
}

selected_none : (p : Task → Bool) {ts : List Task} → ts ≡ [] → select p ts ≡ []
selected_none p e = rw e refl

not_a_task : (t : Task) {ts : List Task} → ts ≡ [] → Memᴰ t ts → ⊥
not_a_task t none_left m = elim (subst (λ ts. Memᴰ t ts) none_left m) [ ]

-- The resumption itself, from FINALIZING.
started_finalizing :
    (cfg : Settings) (w : State)
    → Coherent w
    → w.phase ≡ Fsm.finalizing
    → (start cfg (new_connection w)).1.phase ≡ Fsm.finalizing
      × (start cfg (new_connection w)).1.tasks ≡ []
      × (start cfg (new_connection w)).1.grading_queue ≡ w.grading_queue
unfolding start_in resume_phase new_connection
started_finalizing cfg w c at = rw (start-new_connection cfg w c, at) (refl, refl, refl)

start-Stuck :
    (cfg : Settings) {queue : List ℕ} (w : State)
    → Coherent w
    → w.phase ≡ Fsm.finalizing
    → w.grading_queue ≡ queue
    → Stuck queue (start cfg (new_connection w)).1
start-Stuck cfg w c at graded =
    let (at', idle, graded') = started_finalizing cfg w c at in
    record {
      coherent = Step-Coherent cfg (reconnect w) c;
      at = at';
      idle = idle;
      graded = graded' ∙ graded;
    }

-- In FINALIZING the triggers only set whether Gemini is idle.
activity_end_finalizing :
    (cfg : Settings) (w : State)
    → w.phase ≡ Fsm.finalizing
    → on_activity_end cfg w ≡ (ok tt, record w { gemini_idle = false })
unfolding on_activity_end on_counted_turn candidate_turn_budget_for_phase
activity_end_finalizing cfg w at = rw at refl

gemini_turn_finalizing :
    (cfg : Settings) (w : State)
    → w.phase ≡ Fsm.finalizing
    → on_gemini_turn_complete cfg w ≡ (ok tt, record w { gemini_idle = true })
unfolding on_gemini_turn_complete
gemini_turn_finalizing cfg w at = rw at refl

cue_card_ack_finalizing :
    (cfg : Settings) (w : State) → w.phase ≡ Fsm.finalizing → on_cue_card_ack cfg w ≡ (ok tt, w)
unfolding on_cue_card_ack
cue_card_ack_finalizing cfg w at = rw at refl

Step-Stuck :
    (cfg : Settings) {queue : List ℕ} {u v : State} → Step cfg u v → Stuck queue u → Stuck queue v
unfolding on_turn_flush_started on_turn_flush_complete close dispatch_directive
Step-Stuck cfg (activity_end w) k = rw (activity_end_finalizing cfg w k.at) (
    same-Stuck w (record w { gemini_idle = false }) k
      (record { ordered = k.coherent.ordered; cached = k.coherent.cached }) (refl, k.idle, refl))
Step-Stuck cfg (gemini_turn_complete w) k = rw (gemini_turn_finalizing cfg w k.at) (
    same-Stuck w (record w { gemini_idle = true }) k
      (record { ordered = k.coherent.ordered; cached = k.coherent.cached }) (refl, k.idle, refl))
Step-Stuck cfg (cue_card_ack w) k = rw (cue_card_ack_finalizing cfg w k.at) k
Step-Stuck cfg (flush_started i w) k =
    same-Stuck w _ k (Step-Coherent cfg (flush_started i w) k.coherent) (refl, k.idle, refl)
Step-Stuck cfg (flush_complete i w) k =
    same-Stuck w _ k (Step-Coherent cfg (flush_complete i w) k.coherent) (refl, k.idle, refl)
Step-Stuck cfg (task t w m) k = elim (not_a_task t k.idle m) [ ]
Step-Stuck cfg (directive timed_out w) k =
    dispatch_next-Stuck _ timed_out w.directive_queue w k
      (Step-Coherent cfg (directive timed_out w) k.coherent)
Step-Stuck cfg (tick ms w) k =
    same-Stuck w _ k (Step-Coherent cfg (tick ms w) k.coherent) (refl, k.idle, refl)
Step-Stuck cfg (broker up w) k =
    same-Stuck w _ k (Step-Coherent cfg (broker up w) k.coherent) (refl, k.idle, refl)
Step-Stuck cfg (disconnect w) k =
    same-Stuck w _ k (Step-Coherent cfg (disconnect w) k.coherent)
      (refl, selected_none _ k.idle, refl)
Step-Stuck cfg (reconnect w) k = start-Stuck cfg w k.coherent k.at k.graded

Reach-Stuck :
    (cfg : Settings) {queue : List ℕ} {u v : State} → Reach cfg u v → Stuck queue u → Stuck queue v
Reach-Stuck cfg here k = k
Reach-Stuck cfg (next r s) k = Step-Stuck cfg s (Reach-Stuck cfg r k)

-- A candidate who reconnects while the session is in FINALIZING leaves it there for good: whatever
-- happens next, and however often the candidate reconnects, the driver stays in FINALIZING, no task
-- runs, and no grading job is enqueued.
pub resumed_finalizing_stuck :
    (cfg : Settings) (w : State)
    → Coherent w
    → w.phase ≡ Fsm.finalizing
    → (v : State) → Reach cfg (start cfg (new_connection w)).1 v
    → v.phase ≡ Fsm.finalizing × v.tasks ≡ [] × v.grading_queue ≡ w.grading_queue
resumed_finalizing_stuck cfg w c at v r =
    let k = Reach-Stuck cfg r (start-Stuck cfg w c at refl) in (k.at, k.idle, k.graded)

resumed_part1 :
    (cfg : Settings) (w : State)
    → Coherent w
    → w.phase ≡ Fsm.part1_topic_a
    → (start cfg (new_connection w)).1.phase ≡ Fsm.part1_topic_a
      × (start cfg (new_connection w)).1.topic_sets ≡ []
unfolding start_in resume_phase resume_part1 repush_live_deadline new_connection
resumed_part1 cfg w c at = rw (start-new_connection cfg w c, at) (ground arith)

-- A candidate who reconnects in Part 1's topic A has no topic sets any more: the advance to topic
-- B, for whatever reason it is made, commits the move and then raises KeyError, so that no
-- directive for topic B is queued.
pub resumed_part1_loses_topics :
    (cfg : Settings) (reason : String) (w : State)
    → Coherent w
    → w.phase ≡ Fsm.part1_topic_a
    → advance cfg Fsm.topic_a_complete reason true (start cfg (new_connection w)).1 ≡ (
      err key_error,
      moved_to Fsm.topic_a_complete reason Fsm.part1_topic_b (start cfg (new_connection w)).1,
    )
unfolding lookup Fsm.transition Fsm.transitions
resumed_part1_loses_topics cfg reason w c at =
    let (at', lost) = resumed_part1 cfg w c at in
    advance_no_topic cfg Fsm.topic_a_complete reason (start cfg (new_connection w)).1
      (Step-Coherent cfg (reconnect w) c) (rw lost refl) (rw at' refl)
