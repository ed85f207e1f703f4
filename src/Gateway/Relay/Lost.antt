-- ===== src/Gateway/Relay/Lost.antt =====
-- The end of a turn when the driver raises (apps/api-gateway/app/routers/ws_exam.py).
use session_replica_ielt.Prelude.{
  ℕ, ◌+◌, ◌≤◌, ◌≡◌, refl, false, Bool-cases, inl, inr, sym, true, some, [], arith, subst,
}
use session_replica_ielt.Prelude.Dict.{lookup}
use session_replica_ielt.Fsm
use session_replica_ielt.Gateway.Exceptions.{Result, ok, err, key_error}
use session_replica_ielt.Gateway.Exceptions
use session_replica_ielt.Gateway.Settings.{Settings}
use session_replica_ielt.Gateway.Bridge.{send_activity_end, send}
use session_replica_ielt.Gateway.Orchestrator.State.{State, Action, ⊤, pure, ◌>>◌}
use session_replica_ielt.Gateway.Orchestrator.Triggers.{
  on_activity_end, on_turn_flush_started, candidate_turn_budget_for_phase, count_turn,
}
use session_replica_ielt.Gateway.Orchestrator.Watchdogs.{on_bridge}
use session_replica_ielt.Gateway.Orchestrator.Coherence.{Coherent}
use session_replica_ielt.Gateway.Orchestrator.Moves.{advance_no_topic}
use session_replica_ielt.Gateway.Orchestrator.Turns.{counted-turn, reached-advances}
use session_replica_ielt.Gateway.Relay.{
  activity_end, Relay, end_activity, start_flush, finish_turn, on_client_message,
}

-- The turn that fills topic A's budget, where no topic sets are left.
raises_key_error :
    (cfg : Settings) (w : State)
    → Coherent w
    → w.phase ≡ Fsm.part1_topic_a
    → w.topic_sets ≡ []
    → cfg.part1_topic_turns ≤ w.turns_in_phase + 1
    → (on_activity_end cfg w).0 ≡ err key_error
unfolding candidate_turn_budget_for_phase Fsm.transition Fsm.transitions lookup
raises_key_error cfg w c at lost full =
    let v : State = (count_turn (record w { gemini_idle = false })).1 in
    rw
      (
        counted-turn cfg w Fsm.topic_a_complete cfg.part1_topic_turns (rw at refl),
        reached-advances cfg Fsm.topic_a_complete cfg.part1_topic_turns v
            (λ same. absurd (ground (arith, at, same))) full,
        advance_no_topic cfg Fsm.topic_a_complete "turn_budget_reached" v
            (record { ordered = c.ordered; cached = c.cached }) (rw lost refl) (rw at refl),
      )
      refl

-- The state in which `on_activity_end` is called.
abbrev called_in : ℕ → State → State
called_in t w = (on_turn_flush_started t (on_bridge send_activity_end w).1).1

end_activity-called :
    (cfg : Settings) (t : ℕ) (w : State)
    → w.bridge.connected ≡ true
    → end_activity cfg t w ≡ (on_activity_end cfg >> pure w.phase) (called_in t w)
unfolding end_activity on_bridge send_activity_end send on_turn_flush_started
end_activity-called cfg t w live = rw live refl

raises-then :
    {A : Type 0} (r : Result ⊤ × State) (k : Action A) {e : Exceptions.Error}
    → r.0 ≡ err e
    → (((λ w. r) >> k) r.1).0 ≡ err e
raises-then (ok x, w) k h = absurd (ground (arith, h))
raises-then (err x, w) k h = ground (arith, h)

called-Coherent : (t : ℕ) (w : State) → Coherent w → Coherent (called_in t w)
unfolding on_bridge send_activity_end send on_turn_flush_started
called-Coherent t w c = elim (Bool-cases w.bridge.connected) [
  | inl live ↦ rw live (record { ordered = c.ordered; cached = c.cached })
  | inr dead ↦ rw dead (record { ordered = c.ordered; cached = c.cached })
]

end_activity-raises :
    (cfg : Settings) (t : ℕ) (w : State)
    → w.bridge.connected ≡ true
    → Coherent w
    → w.phase ≡ Fsm.part1_topic_a
    → w.topic_sets ≡ []
    → cfg.part1_topic_turns ≤ w.turns_in_phase + 1
    → (end_activity cfg t w).0 ≡ err key_error
unfolding on_bridge send_activity_end send on_turn_flush_started
end_activity-raises cfg t w live c at lost full = rw (end_activity-called cfg t w live) (
    raises-then (on_activity_end cfg (called_in t w)) (pure w.phase) (
      raises_key_error cfg (called_in t w) (called-Coherent t w c) (ground (arith, at))
        (ground (arith, lost)) (ground (arith, full))))

start_flush-raises :
    (t : ℕ) (p : Relay) (r : Result Fsm.ExamPhase × State) {e : Exceptions.Error}
    → r.0 ≡ err e
    → ((start_flush t p r).0 ≡ err e) × ((start_flush t p r).1.flushes ≡ p.flushes)
unfolding start_flush
start_flush-raises t p (ok q, w) h = absurd (ground (arith, h))
start_flush-raises t p (err x, w) h = (ground (arith, h), refl)

-- On a session that was resumed in Part 1's topic A, so that the driver has no topic sets, the turn
-- that fills the topic's budget ends the handler with KeyError, and its recording is never flushed.
pub resumed_turn_lost :
    (cfg : Settings) (t : ℕ) (p : Relay)
    → p.turn_id ≡ some t
    → p.orchestrator.bridge.connected ≡ true
    → Coherent p.orchestrator
    → p.orchestrator.phase ≡ Fsm.part1_topic_a
    → p.orchestrator.topic_sets ≡ []
    → cfg.part1_topic_turns ≤ p.orchestrator.turns_in_phase + 1
    → ((on_client_message cfg activity_end p).0 ≡ err key_error)
      × ((on_client_message cfg activity_end p).1.flushes ≡ p.flushes)
unfolding on_client_message finish_turn
resumed_turn_lost cfg t p active live c at lost full =
    subst
      (λ o.
        ((finish_turn cfg o p).0 ≡ err key_error) × ((finish_turn cfg o p).1.flushes ≡ p.flushes))
      (sym active)
      (start_flush-raises t p (end_activity cfg t p.orchestrator)
        (end_activity-raises cfg t p.orchestrator live c at lost full))
