-- ===== src/Gateway/Orchestrator/Lapsed.antt =====
-- A reconnection of exam_orchestrator.py in the preparation phase of Part 2, after its deadline's key
-- has expired.
use session_replica_ielt.Prelude.{
  ℕ, ◌+◌, ◌≤◌, ◌≡◌, refl, ap, ◌∙◌, Option, none, List, [], ◌∷◌, arith, Bool, true, false, ◌||◌,
  select, All, Bool-cases, inl, inr,
}
use mathlib.Core.List.{Memᴰ}
use mathlib.Core.List.Memᴰ
use session_replica_ielt.Fsm
use session_replica_ielt.Gateway.Exceptions.{Result, ok}
use session_replica_ielt.Gateway.Settings.{Settings}
use session_replica_ielt.Gateway.Timers
use session_replica_ielt.Gateway.Timers.{TimerName, Redis, get_deadline}
use session_replica_ielt.Gateway.Timers.Deadlines.{get-set_deadline_lapsed}
use session_replica_ielt.Gateway.Bridge.{Directive, inject_directive, force_mute_input, reanchor}
use session_replica_ielt.Gateway.Orchestrator.State.{
  State, Task, ⊤, ◌>>◌, queue_directive, prep, begun,
}
use session_replica_ielt.Gateway.Orchestrator.Advance.{start_watchdog}
use session_replica_ielt.Gateway.Orchestrator.Triggers.{
  on_activity_end, on_counted_turn, on_gemini_turn_complete, on_cue_card_ack, on_turn_flush_started,
  on_turn_flush_complete, candidate_turn_budget_for_phase,
}
use session_replica_ielt.Gateway.Orchestrator.Watchdogs.{
  run_task, piece, settle, read_deadline, finished,
}
use session_replica_ielt.Gateway.Orchestrator.Lifecycle.{
  new_connection, start, start_in, resume_phase, repush_live_deadline, close, dispatch_directive,
  dispatch_next,
}
use session_replica_ielt.Gateway.Orchestrator.Coherence.{Coherent}
use session_replica_ielt.Gateway.Orchestrator.Agreement.Sessions.{
  Step-Coherent, start-new_connection,
}
use session_replica_ielt.Gateway.Orchestrator.Steps.{
  Step, activity_end, gemini_turn_complete, cue_card_ack, flush_started, flush_complete, task,
  directive, tick, broker, disconnect, reconnect, Reach, here, next,
}

-- A watchdog of the preparation that has yet to read its deadline.
abbrev pub IsUnread : Task → Type 0
IsUnread t = t.watchdog ≡ prep × t.stage ≡ begun

abbrev pub deadline_of : State → Option ℕ
deadline_of w = get_deadline w.now w.session_id Timers.part2_prep w.redis

-- In the preparation phase without a deadline to wait for.
pub record Lapsed (w : State) : Type 0 where
  pub coherent : Coherent w
  pub at : w.phase ≡ Fsm.part2_prep
  pub forgotten : deadline_of w ≡ none
  pub unread : All IsUnread w.tasks

same-Lapsed :
    (w v : State)
    → Lapsed w
    → Coherent v
    → v.phase ≡ w.phase × deadline_of v ≡ deadline_of w × All IsUnread v.tasks
    → Lapsed v
same-Lapsed w v k c (p, d, t) = record {
  coherent = c;
  at = p ∙ k.at;
  forgotten = d ∙ k.forgotten;
  unread = t;
}

All-select : (p : Task → Bool) (ts : List Task) → All IsUnread ts → All IsUnread (select p ts)
All-select p [] all = tt
All-select p (t ∷ ts) all = elim (Bool-cases (p t)) [
  | inl kept ↦ rw kept (all.0, All-select p ts all.1)
  | inr cut ↦ rw cut (All-select p ts all.1)
]

All-Memᴰ : (t : Task) (ts : List Task) → Memᴰ t ts → All IsUnread ts → IsUnread t
All-Memᴰ t [] m all = absurd (Memᴰ.not-nil m)
All-Memᴰ t (u ∷ ts) m all = elim (Memᴰ.cases_cons m) [
  | inl e ↦ rw e all.0
  | inr later ↦ All-Memᴰ t ts later all.1
]

-- A key that has expired stays so.
get_deadline-later :
    (now ms s : ℕ) (n : TimerName) (redis : Redis)
    → get_deadline now s n redis ≡ none
    → get_deadline (now + ms) s n redis ≡ none
unfolding get_deadline
get_deadline-later now ms s n redis h = ground (arith, h)

dispatch_next-Lapsed :
    (timed_out : Bool) (ds : List Directive) (w : State)
    → Lapsed w
    → (coherent : Coherent (dispatch_next timed_out ds w).1)
    → Lapsed (dispatch_next timed_out ds w).1
unfolding dispatch_next inject_directive
dispatch_next-Lapsed timed_out [] w k c = k
dispatch_next-Lapsed timed_out (d ∷ ds) w k c = elim (Bool-cases (w.gemini_idle || timed_out)) [
  | inl sent ↦ same-Lapsed w _ k c (rw sent (refl, refl, k.unread))
  | inr kept ↦ same-Lapsed w _ k c (rw kept (refl, refl, k.unread))
]

activity_end_prep :
    (cfg : Settings) (w : State)
    → w.phase ≡ Fsm.part2_prep
    → on_activity_end cfg w ≡ (ok tt, record w { gemini_idle = false })
unfolding on_activity_end on_counted_turn candidate_turn_budget_for_phase
activity_end_prep cfg w at = rw at refl

gemini_turn_prep :
    (cfg : Settings) (w : State)
    → w.phase ≡ Fsm.part2_prep
    → on_gemini_turn_complete cfg w ≡ (ok tt, record w { gemini_idle = true })
unfolding on_gemini_turn_complete
gemini_turn_prep cfg w at = rw at refl

cue_card_ack_prep :
    (cfg : Settings) (w : State) → w.phase ≡ Fsm.part2_prep → on_cue_card_ack cfg w ≡ (ok tt, w)
unfolding on_cue_card_ack
cue_card_ack_prep cfg w at = rw at refl

-- The watchdog finds no deadline and ends.
run_unread :
    (cfg : Settings) (t : Task) (w : State)
    → IsUnread t
    → deadline_of w ≡ none
    → run_task cfg t w ≡ settle t.id (ok finished, w)
unfolding run_task piece read_deadline
run_unread cfg t w (k, s) gone = rw (k, s, gone) refl

repush_none :
    (u : State) → deadline_of u ≡ none → repush_live_deadline Timers.part2_prep u ≡ (ok tt, u)
unfolding repush_live_deadline
repush_none u gone = rw (gone, repush_live_deadline) refl

resume_prep :
    (u : State)
    → deadline_of u ≡ none
    → resume_phase Fsm.part2_prep u
      ≡ start_watchdog prep (record u { bridge = force_mute_input u.bridge })
unfolding resume_phase
resume_prep u gone =
    ap (λ (r : Result ⊤ × State). ((λ (x : State). r) >> start_watchdog prep) u)
      (repush_none (record u { bridge = force_mute_input u.bridge }) gone)

-- The resumption mutes the input and starts a watchdog, which has nothing to wait for.
started_prep :
    (cfg : Settings) (w : State)
    → Coherent w
    → w.phase ≡ Fsm.part2_prep
    → deadline_of w ≡ none
    → let v = (start cfg (new_connection w)).1 in
      v.phase ≡ Fsm.part2_prep × deadline_of v ≡ none × All IsUnread v.tasks
unfolding start_in new_connection start_watchdog
started_prep cfg w c at gone =
    let u : State =
      (queue_directive reanchor (record (new_connection w) { phase = Fsm.part2_prep })).1 in
    rw (start-new_connection cfg w c, at) (rw (resume_prep u gone) (refl, gone, ((refl, refl), tt)))

start-Lapsed :
    (cfg : Settings) (w : State)
    → Coherent w
    → w.phase ≡ Fsm.part2_prep
    → deadline_of w ≡ none
    → Lapsed (start cfg (new_connection w)).1
start-Lapsed cfg w c at gone =
    let (at', gone', unread) = started_prep cfg w c at gone in
    record {
      coherent = Step-Coherent cfg (reconnect w) c;
      at = at';
      forgotten = gone';
      unread = unread;
    }

Step-Lapsed : (cfg : Settings) {u v : State} → Step cfg u v → Lapsed u → Lapsed v
unfolding on_turn_flush_started on_turn_flush_complete close dispatch_directive settle
Step-Lapsed cfg (activity_end w) k = rw (activity_end_prep cfg w k.at) (
    same-Lapsed w (record w { gemini_idle = false }) k
      (record { ordered = k.coherent.ordered; cached = k.coherent.cached }) (refl, refl, k.unread))
Step-Lapsed cfg (gemini_turn_complete w) k = rw (gemini_turn_prep cfg w k.at) (
    same-Lapsed w (record w { gemini_idle = true }) k
      (record { ordered = k.coherent.ordered; cached = k.coherent.cached }) (refl, refl, k.unread))
Step-Lapsed cfg (cue_card_ack w) k = rw (cue_card_ack_prep cfg w k.at) k
Step-Lapsed cfg (flush_started i w) k =
    same-Lapsed w _ k (Step-Coherent cfg (flush_started i w) k.coherent) (refl, refl, k.unread)
Step-Lapsed cfg (flush_complete i w) k =
    same-Lapsed w _ k (Step-Coherent cfg (flush_complete i w) k.coherent) (refl, refl, k.unread)
Step-Lapsed cfg (task t w m) k =
    let ended = run_unread cfg t w (All-Memᴰ t w.tasks m k.unread) k.forgotten in
    same-Lapsed w _ k (Step-Coherent cfg (task t w m) k.coherent)
      (rw ended (refl, refl, All-select _ w.tasks k.unread))
Step-Lapsed cfg (directive timed_out w) k =
    dispatch_next-Lapsed timed_out w.directive_queue w k
      (Step-Coherent cfg (directive timed_out w) k.coherent)
Step-Lapsed cfg (tick ms w) k = record {
  coherent = Step-Coherent cfg (tick ms w) k.coherent;
  at = k.at;
  forgotten = get_deadline-later w.now ms w.session_id Timers.part2_prep w.redis k.forgotten;
  unread = k.unread;
}
Step-Lapsed cfg (broker up w) k =
    same-Lapsed w _ k (Step-Coherent cfg (broker up w) k.coherent) (refl, refl, k.unread)
Step-Lapsed cfg (disconnect w) k =
    same-Lapsed w _ k (Step-Coherent cfg (disconnect w) k.coherent)
      (refl, refl, All-select _ w.tasks k.unread)
Step-Lapsed cfg (reconnect w) k = start-Lapsed cfg w k.coherent k.at k.forgotten

Reach-Lapsed : (cfg : Settings) {u v : State} → Reach cfg u v → Lapsed u → Lapsed v
Reach-Lapsed cfg here k = k
Reach-Lapsed cfg (next r s) k = Step-Lapsed cfg s (Reach-Lapsed cfg r k)

-- A candidate who reconnects in a coherent state in the preparation phase, 30 seconds or more past a
-- deadline that was set and not changed since, leaves the session there for good: whatever happens
-- next, and however often the candidate reconnects, the driver stays in the preparation phase.
pub resumed_prep_stuck :
    (cfg : Settings) (w : State) (set_at duration : ℕ) (redis : Redis)
    → Coherent w
    → w.phase ≡ Fsm.part2_prep
    → w.redis ≡ (Timers.set_deadline set_at w.session_id Timers.part2_prep duration redis).1
    → set_at + duration + 30000 ≤ w.now
    → (v : State) → Reach cfg (start cfg (new_connection w)).1 v
    → v.phase ≡ Fsm.part2_prep
resumed_prep_stuck cfg w set_at duration redis c at stored late v r =
    let gone : deadline_of w ≡ none =
      rw stored
        (get-set_deadline_lapsed set_at w.now w.session_id Timers.part2_prep duration redis late) in
    (Reach-Lapsed cfg r (start-Lapsed cfg w c at gone)).at
