-- ===== src/Gateway/Orchestrator/Turns.antt =====
-- The candidate's turns and the directives of exam_orchestrator.py: the floor of Part 1, the turn
-- budgets, the length of Part 3, and one spoken turn at a time.
use session_replica_ielt.Prelude.{
  ℕ, ◌+◌, ◌≤◌, ◌<◌, ◌≡◌, refl, Option, none, some, List, [], ◌∷◌, ◌++◌, arith, Bool, true, false,
  ◌≢◌, map, append_assoc, Bool-cases, ◌||◌, inl, inr,
}
use session_replica_ielt.Fsm
use session_replica_ielt.Fsm.{ExamPhase, ExamEvent, reached}
use session_replica_ielt.Gateway.Exceptions.{ok}
use session_replica_ielt.Gateway.Settings.{Settings}
use session_replica_ielt.Gateway.Bridge.{Directive, inject_directive, client_content, send}
use session_replica_ielt.Gateway.LongTurn.{is_part2_long_turn}
use session_replica_ielt.Gateway.Orchestrator.State.{State}
use session_replica_ielt.Gateway.Orchestrator.Advance.{advance, part3_duration}
use session_replica_ielt.Gateway.Orchestrator.Triggers.{
  on_activity_end, on_counted_turn, after_counted_turn, candidate_turn_budget_for_phase, count_turn,
}
use session_replica_ielt.Gateway.Orchestrator.Lifecycle.{dispatch_directive, dispatch_next}
use session_replica_ielt.Gateway.Orchestrator.Coherence.{Coherent}
use session_replica_ielt.Gateway.Orchestrator.Moves.{advance_settles, settled}

-- In Part 1's topic C, a turn that ends before the minimum length of Part 1 never ends the topic:
-- the phase stays, however many turns were taken.
pub part1_floor :
    (cfg : Settings) (w : State) (start : ℕ)
    → w.phase ≡ Fsm.part1_topic_c
    → w.part1_start_ts ≡ some start
    → w.now < start + cfg.part1_min_ms
    → (on_activity_end cfg w).1.phase ≡ Fsm.part1_topic_c × (on_activity_end cfg w).1.db ≡ w.db
unfolding on_activity_end on_counted_turn candidate_turn_budget_for_phase after_counted_turn
part1_floor cfg w start at started early = rw (at, started) (ground (arith, at, early))

pub reached-advances :
    (cfg : Settings) (event : ExamEvent) (budget : ℕ) (v : State)
    → v.phase ≢ Fsm.part1_topic_c
    → budget ≤ v.turns_in_phase
    → after_counted_turn cfg event budget v ≡ advance cfg event "turn_budget_reached" true v
unfolding after_counted_turn
reached-advances cfg event budget v other enough = ground (arith, other, enough)

not_long_turn :
    (cfg : Settings) (p : ExamPhase) {entry : ExamEvent × ℕ}
    → candidate_turn_budget_for_phase cfg p ≡ some entry
    → is_part2_long_turn p ≡ false
unfolding candidate_turn_budget_for_phase
not_long_turn cfg p e = ground (arith, e)

pub counted-turn :
    (cfg : Settings) (w : State) (event : ExamEvent) (budget : ℕ)
    → candidate_turn_budget_for_phase cfg w.phase ≡ some (event, budget)
    → on_activity_end cfg w
      ≡ after_counted_turn cfg event budget (count_turn (record w { gemini_idle = false })).1
unfolding on_activity_end on_counted_turn
counted-turn cfg w event budget counted = rw (not_long_turn cfg w.phase counted, counted) refl

-- A candidate's turn that fills the budget of its phase makes the phase's transition, except in
-- Part 1's topic C; the driver is then in the phase that the table gives.
pub budget_reached :
    (cfg : Settings) (w : State)
    → Coherent w
    → (event : ExamEvent) (budget : ℕ)
    → candidate_turn_budget_for_phase cfg w.phase ≡ some (event, budget)
    → w.phase ≢ Fsm.part1_topic_c
    → budget ≤ w.turns_in_phase + 1
    → {q : ExamPhase} → Fsm.transition w.phase event ≡ reached q
    → (on_activity_end cfg w).1.phase ≡ settled q w.pending_flush_turn_ids
budget_reached cfg w c event budget counted other enough legal =
    rw
      (
        counted-turn cfg w event budget counted,
        reached-advances cfg event budget (count_turn (record w { gemini_idle = false })).1 other
            enough,
      )
      (advance_settles cfg event "turn_budget_reached"
        (count_turn (record w { gemini_idle = false })).1
        (record { ordered = c.ordered; cached = c.cached }) legal)

-- A turn below the budget of its phase queues no directive if the budget is at most the number of
-- turns after which the examiner is re-anchored (all default budgets are).
pub below_budget_silent :
    (cfg : Settings) (w : State) (event : ExamEvent) (budget : ℕ)
    → candidate_turn_budget_for_phase cfg w.phase ≡ some (event, budget)
    → budget ≤ cfg.reanchor_every_n_turns
    → w.turns_since_reanchor ≤ w.turns_in_phase
    → w.turns_in_phase + 1 < budget
    → (on_activity_end cfg w).1.directive_queue ≡ w.directive_queue
      × (on_activity_end cfg w).1.phase ≡ w.phase
unfolding after_counted_turn
below_budget_silent cfg w event budget counted low since below =
    rw (counted-turn cfg w event budget counted) (ground (arith, low, since, below))

stays :
    (ds : List Directive) (w : State)
    → w.gemini_idle ≡ false
    → dispatch_next false ds w ≡ (ok tt, w)
unfolding dispatch_next
stays [] w busy = refl
stays (d ∷ ds) w busy = rw busy refl

or-left : (a b : Bool) → (a || b) ≡ false → a ≡ false
or-left false b h = refl
or-left true b h = h

twice :
    (timed_out : Bool) (ds : List Directive) (w : State)
    → w.directive_queue ≡ ds
    → dispatch_next false
        (dispatch_next timed_out ds w).1.directive_queue
        (dispatch_next timed_out ds w).1
      ≡ (ok tt, (dispatch_next timed_out ds w).1)
unfolding dispatch_next inject_directive
twice timed_out [] w e = rw e refl
twice timed_out (d ∷ ds) w e = elim (Bool-cases (w.gemini_idle || timed_out)) [
  | inl sends ↦ rw sends (stays ds _ refl)
  | inr waits ↦ rw waits (stays w.directive_queue w (or-left w.gemini_idle timed_out waits))
]

in_order :
    (timed_out : Bool) (ds : List Directive) (w : State)
    → w.directive_queue ≡ ds
    → w.bridge.connected ≡ true
    → (dispatch_next timed_out ds w).1.bridge.sent
        ++ map client_content (dispatch_next timed_out ds w).1.directive_queue
      ≡ w.bridge.sent ++ map client_content w.directive_queue
unfolding dispatch_next inject_directive send
in_order timed_out [] w e o = refl
in_order timed_out (d ∷ ds) w e o = elim (Bool-cases (w.gemini_idle || timed_out)) [
  | inl sends ↦
      rw (sends, o, e) (append_assoc w.bridge.sent (client_content d ∷ []) (map client_content ds))
  | inr waits ↦ rw waits refl
]

-- Once a round of the dispatcher has run, another does nothing until Gemini's turn is complete or
-- the wait for it times out: one spoken turn at a time.
pub dispatch_one_at_a_time :
    (timed_out : Bool) (w : State)
    → dispatch_directive false (dispatch_directive timed_out w).1
      ≡ (ok tt, (dispatch_directive timed_out w).1)
unfolding dispatch_directive
dispatch_one_at_a_time timed_out w = twice timed_out w.directive_queue w refl

-- A round of the dispatcher on an open bridge loses, repeats and reorders no directive: those sent
-- and then those that wait are the same as before.
pub dispatch_keeps_order :
    (timed_out : Bool) (w : State)
    → w.bridge.connected ≡ true
    → let v = (dispatch_directive timed_out w).1 in
      v.bridge.sent ++ map client_content v.directive_queue
      ≡ w.bridge.sent ++ map client_content w.directive_queue
unfolding dispatch_directive
dispatch_keeps_order timed_out w open_bridge =
    in_order timed_out w.directive_queue w refl open_bridge

-- Part 3 lasts at least its minimum, if that is at most its maximum.
pub part3_duration_bounds :
    (cfg : Settings) (now : ℕ) (start : Option ℕ)
    → cfg.part3_min_ms ≤ cfg.part3_max_ms
    → cfg.part3_min_ms ≤ part3_duration cfg now start
      × part3_duration cfg now start ≤ cfg.part3_max_ms
unfolding part3_duration
part3_duration_bounds cfg now none h = (omega arith, omega arith)
part3_duration_bounds cfg now (some s) h = (omega arith, omega arith)
