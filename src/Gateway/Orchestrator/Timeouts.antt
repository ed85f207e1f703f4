-- ===== src/Gateway/Orchestrator/Timeouts.antt =====
-- The watchdogs of exam_orchestrator.py after their waits, and the end of the exam.
use session_replica_ielt.Prelude.{
  ℕ, zero, suc, ◌≡◌, refl, ap, some, [], ◌∷◌, ◌++◌, arith, true, false, String, if◌then◌else◌, ◌⊎◌,
  inl, inr,
}
use session_replica_ielt.Fsm
use session_replica_ielt.Fsm.{ExamPhase, ExamEvent, reached, invalid}
use session_replica_ielt.Gateway.Exceptions.{Result, ok, err, invalid_transition}
use session_replica_ielt.Gateway.Names
use session_replica_ielt.Gateway.Engine.Transitions.{transition_snapshot}
use session_replica_ielt.Gateway.Tables.Laws.{find-update_session}
use session_replica_ielt.Gateway.Tables.{ExamSession, find_session, completed, update_session}
use session_replica_ielt.Gateway.Settings.{Settings}
use session_replica_ielt.Gateway.Timers
use session_replica_ielt.Gateway.Orchestrator.State.{State, Action, ⊤, ◌>>◌}
use session_replica_ielt.Gateway.Orchestrator.Advance.{
  advance, advance_within, after_transition, on_enter_phase, enter_complete,
}
use session_replica_ielt.Gateway.Orchestrator.Triggers.{is_part1_topic_c}
use session_replica_ielt.Gateway.Orchestrator.Watchdogs.{
  skip_part1, part1_completion_event, part1_expired, long_turn_expired, clear_deadline, is_part1,
}
use session_replica_ielt.Gateway.Orchestrator.Coherence.{
  Coherent, moved_to, moved_to-Coherent, commit_legal, no_extra,
}
use session_replica_ielt.Gateway.Orchestrator.Moves.{
  advance_settles, advance_silent, advance_illegal, at_finalizing,
}

-- The Part 1 loop, from each of the phases.
skip_outside :
    (rounds : ℕ) (cfg : Settings) (w : State)
    → w.phase ≡ Fsm.part2_cuecard_present
    → skip_part1 rounds cfg w ≡ (ok tt, w)
unfolding skip_part1 part1_completion_event
skip_outside zero cfg w at = rw at refl
skip_outside (suc rounds) cfg w at = rw at refl

-- A round of the loop in a phase that has an event.
skip_round :
    (rounds : ℕ) (cfg : Settings) (w : State) (event : ExamEvent)
    → part1_completion_event w.phase ≡ some event
    → skip_part1 (suc rounds) cfg w
      ≡ (advance cfg event "part1_max_watchdog" (is_part1_topic_c w.phase) >> skip_part1 rounds cfg)
          w
unfolding skip_part1
skip_round rounds cfg w event has = rw (has, skip_part1) refl

continue-phase :
    (r : Result ⊤ × State) (k : Action ⊤) (p : ExamPhase)
    → r.1.phase ≡ p
    → ((v : State) → v.phase ≡ p → (k v).1.phase ≡ p)
    → (((λ w. r) >> k) r.1).1.phase ≡ p
continue-phase (ok x, w) k p at keep = keep w at
continue-phase (err e, w) k p at keep = at

-- What follows an action leaves its phase if it leaves every state in that phase.
then-phase :
    (m k : Action ⊤) (w : State) (p : ExamPhase)
    → (m w).1.phase ≡ p
    → ((v : State) → v.phase ≡ p → (k v).1.phase ≡ p)
    → ((m >> k) w).1.phase ≡ p
then-phase m k w p at keep = continue-phase (m w) k p at keep

then-ok : (m k : Action ⊤) (w v : State) → m w ≡ (ok tt, v) → (m >> k) w ≡ k v
then-ok m k w v e = ap (λ r. ((λ w. r) >> k) w) e

-- What the table and the loop say of a phase.
abbrev Completes : ExamPhase → ExamEvent → ExamPhase → Type 0
Completes p event q = part1_completion_event p ≡ some event × Fsm.transition p event ≡ reached q

Completes-a :
    {p : ExamPhase} → p ≡ Fsm.part1_topic_a → Completes p Fsm.topic_a_complete Fsm.part1_topic_b
unfolding part1_completion_event Fsm.transition Fsm.transitions
Completes-a at = rw at (refl, refl)

Completes-b :
    {p : ExamPhase} → p ≡ Fsm.part1_topic_b → Completes p Fsm.topic_b_complete Fsm.part1_topic_c
unfolding part1_completion_event Fsm.transition Fsm.transitions
Completes-b at = rw at (refl, refl)

Completes-c :
    {p : ExamPhase}
    → p ≡ Fsm.part1_topic_c
    → Completes p Fsm.topic_c_complete Fsm.part2_cuecard_present
unfolding part1_completion_event Fsm.transition Fsm.transitions
Completes-c at = rw at (refl, refl)

module _ (cfg : Settings) (w : State) (c : Coherent w) where
  skip_from_c :
      (rounds : ℕ)
      → w.phase ≡ Fsm.part1_topic_c
      → (skip_part1 (suc rounds) cfg w).1.phase ≡ Fsm.part2_cuecard_present
  skip_from_c rounds at =
      let (has, legal) = Completes-c at in
      rw (skip_round rounds cfg w Fsm.topic_c_complete has, ap is_part1_topic_c at)
        (then-phase (advance cfg Fsm.topic_c_complete "part1_max_watchdog" true)
          (skip_part1 rounds cfg) w Fsm.part2_cuecard_present
          (advance_settles cfg Fsm.topic_c_complete "part1_max_watchdog" w c legal)
          (λ v there. rw (skip_outside rounds cfg v there) there))

  -- A round of the loop that does not announce.
  silent_round :
      (rounds : ℕ) (event : ExamEvent) (q : ExamPhase)
      → Completes w.phase event q
      → is_part1_topic_c w.phase ≡ false
      → skip_part1 (suc rounds) cfg w
        ≡ skip_part1 rounds cfg (moved_to event "part1_max_watchdog" q w)
  silent_round rounds event q completes silent =
      let (has, legal) = completes in
      rw (skip_round rounds cfg w event has, silent)
        (then-ok (advance cfg event "part1_max_watchdog" false) (skip_part1 rounds cfg) w
          (moved_to event "part1_max_watchdog" q w)
          (advance_silent cfg event "part1_max_watchdog" w c legal))

skip_from_b :
    (cfg : Settings) (w : State)
    → Coherent w
    → (rounds : ℕ) → w.phase ≡ Fsm.part1_topic_b
    → (skip_part1 (suc (suc rounds)) cfg w).1.phase ≡ Fsm.part2_cuecard_present
skip_from_b cfg w c rounds at =
    let completes = Completes-b at in
    rw
      (silent_round cfg w c (suc rounds) Fsm.topic_b_complete Fsm.part1_topic_c completes
        (ap is_part1_topic_c at))
      (skip_from_c cfg (moved_to Fsm.topic_b_complete "part1_max_watchdog" Fsm.part1_topic_c w)
        (moved_to-Coherent w c Fsm.topic_b_complete "part1_max_watchdog" (Completes-b at).1) rounds
        refl)

skip_from_a :
    (cfg : Settings) (w : State)
    → Coherent w
    → (rounds : ℕ) → w.phase ≡ Fsm.part1_topic_a
    → (skip_part1 (suc (suc (suc rounds))) cfg w).1.phase ≡ Fsm.part2_cuecard_present
skip_from_a cfg w c rounds at =
    rw
      (silent_round cfg w c (suc (suc rounds)) Fsm.topic_a_complete Fsm.part1_topic_b
        (Completes-a at) (ap is_part1_topic_c at))
      (skip_from_b cfg (moved_to Fsm.topic_a_complete "part1_max_watchdog" Fsm.part1_topic_b w)
        (moved_to-Coherent w c Fsm.topic_a_complete "part1_max_watchdog" (Completes-a at).1) rounds
        refl)

part1_phases :
    (p : ExamPhase)
    → is_part1 p ≡ true
    → (p ≡ Fsm.part1_topic_a) ⊎ ((p ≡ Fsm.part1_topic_b) ⊎ (p ≡ Fsm.part1_topic_c))
part1_phases Fsm.part1_topic_a h = inl refl
part1_phases Fsm.part1_topic_b h = inr (inl refl)
part1_phases Fsm.part1_topic_c h = inr (inr refl)
part1_phases p h = ground (arith, h)

skip_from :
    (cfg : Settings) (w : State)
    → Coherent w
    → is_part1 w.phase ≡ true
    → (skip_part1 3 cfg w).1.phase ≡ Fsm.part2_cuecard_present
skip_from cfg w c inside = elim (part1_phases w.phase inside) [
  | inl a ↦ skip_from_a cfg w c 0 a
  | inr (inl b) ↦ skip_from_b cfg w c 1 b
  | inr (inr at) ↦ skip_from_c cfg w c 2 at
]

-- When the Part 1 watchdog fires in any phase of Part 1, three rounds of its loop are enough, and
-- they leave the driver at the cue card of Part 2.
pub part1_expired_reaches_part2 :
    (cfg : Settings) (w : State)
    → Coherent w
    → is_part1 w.phase ≡ true
    → (part1_expired cfg w).1.phase ≡ Fsm.part2_cuecard_present
unfolding part1_expired clear_deadline
part1_expired_reaches_part2 cfg w c inside =
    skip_from cfg _ (record { ordered = c.ordered; cached = c.cached }) inside

-- The hard cutoff that runs once the candidate has released the turn raises the table's error: the
-- watchdog task dies, and the log and the phase are unchanged.
pub long_turn_expired_late :
    (cfg : Settings) (w : State)
    → Coherent w
    → w.phase ≡ Fsm.part2_roundoff
    → (long_turn_expired cfg w).0
        ≡ err (
            invalid_transition (record { phase = Fsm.part2_roundoff; event = Fsm.long_turn_ended }))
      × (long_turn_expired cfg w).1.db ≡ w.db
      × (long_turn_expired cfg w).1.phase ≡ w.phase
unfolding long_turn_expired clear_deadline Fsm.transition Fsm.transitions
long_turn_expired_late cfg w c at =
    rw
      (advance_illegal cfg Fsm.long_turn_ended "hard_cutoff" true
        (record w {
          gemini_idle = false;
          redis = Timers.clear_deadline w.session_id Timers.part2_long_turn w.redis;
        })
        (record { ordered = c.ordered; cached = c.cached })
        (ap (λ p. Fsm.transition p Fsm.long_turn_ended) at))
      (refl, refl, refl)

enter_complete-found :
    (w : State) (row : ExamSession)
    → find_session w.session_id w.db.sessions ≡ some row
    → enter_complete w ≡ (
      ok tt,
      record w {
        db = record w.db {
          sessions =
              update_session w.session_id (λ s. record s { status = completed }) w.db.sessions;
        };
        grading_queue =
            if w.broker_up then w.grading_queue ++ w.session_id ∷ [] else w.grading_queue;
      },
    )
unfolding enter_complete
enter_complete-found w row found = rw found refl

-- A session in FINALIZING that is in the table completes. Its row then has the status COMPLETED and
-- the phase COMPLETE, and its grading job is enqueued once if the broker is up; if the broker is
-- down the exam completes all the same, without a job.
pub finalize_completes :
    (cfg : Settings) (reason : String) (w : State) (row : ExamSession)
    → Coherent w
    → w.phase ≡ Fsm.finalizing
    → find_session w.session_id w.db.sessions ≡ some row
    → let (r, v) = advance cfg Fsm.finalize_complete reason true w in
      (r ≡ ok tt)
      × (v.phase ≡ Fsm.complete)
      × (find_session w.session_id v.db.sessions
          ≡ some (record row { current_phase = some "COMPLETE"; status = completed }))
      × (v.grading_queue
          ≡ (if w.broker_up then w.grading_queue ++ w.session_id ∷ [] else w.grading_queue))
unfolding advance advance_within after_transition on_enter_phase Names.phase_value
finalize_completes cfg reason w row c at found =
    let legal : Fsm.transition w.phase Fsm.finalize_complete ≡ reached Fsm.complete =
      at_finalizing at in
    let v : State = moved_to Fsm.finalize_complete reason Fsm.complete w in
    let moved =
      (transition_snapshot w.db w.session_id c.ordered c.cached Fsm.finalize_complete reason []
        legal no_extra found).0 in
    rw (commit_legal w c Fsm.finalize_complete reason legal, enter_complete-found v _ moved)
      (
        refl,
        refl,
        find-update_session w.session_id (λ s. record s { status = completed }) (λ s. refl)
            v.db.sessions moved,
        refl,
      )
