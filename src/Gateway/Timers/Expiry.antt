-- ===== src/Gateway/Timers/Expiry.antt =====
-- When the waiting loops of timers.py end, and with what.
use session_replica_ielt.Prelude.{
  ℕ, ◌+◌, ◌≤◌, ◌<◌, ◌≡◌, refl, Bool, true, false, some, List, [], ◌∷◌, ◌++◌, All, inl, inr, ap,
  Bool-cases, ltb, arith,
}
use session_replica_ielt.Fsm.{ExamPhase}
use session_replica_ielt.Gateway.Timers.{
  TimerName, Redis, Poll, poll_group, wait_from, set_deadline, wait_for_phase_group_deadline,
}
use session_replica_ielt.Gateway.Timers.Deadlines.{get-set_deadline_lapsed}

-- A round before the deadline, in one of the phases.
abbrev pub Inside : ℕ → (ExamPhase → Bool) → Poll → Type 0
Inside deadline phases p = (p.now < deadline) × (phases p.phase ≡ true)

-- A round at which the loop ends, and the answer that it gives.
abbrev pub Ends : ℕ → (ExamPhase → Bool) → Poll → Bool → Type 0
Ends deadline phases p true = deadline ≤ p.now
Ends deadline phases p false = (p.now < deadline) × (phases p.phase ≡ false)

module _ (deadline : ℕ) (phases : ExamPhase → Bool) where
  -- The loop gives an answer exactly at the first round that is late or outside the phases: every
  -- round before it was in time and inside.
  pub wait_from-Ends :
      (ps : List Poll) (p : Poll) (qs : List Poll) (b : Bool)
      → All (Inside deadline phases) ps
      → Ends deadline phases p b
      → wait_from deadline phases (ps ++ p ∷ qs) ≡ some b
  unfolding wait_from poll_group
  wait_from-Ends [] p qs true before end = ground arith
  wait_from-Ends [] p qs false before end = ground arith
  wait_from-Ends (x ∷ ps) p qs b before end = ground (arith, wait_from-Ends ps p qs b before.1 end)

  pub wait_from-some :
      (ps : List Poll) {b : Bool}
      → wait_from deadline phases ps ≡ some b
      → (before : List Poll) × (p : Poll) × (after : List Poll) × (ps ≡ before ++ p ∷ after)
        × All (Inside deadline phases) before
        × Ends deadline phases p b
  unfolding wait_from poll_group
  wait_from-some [] h = absurd (ground arith)
  wait_from-some (p ∷ ps) h = elim (Bool-cases (ltb p.now deadline)) [
    | inr late ↦ ([], p, ps, refl, tt, ground arith)
    | inl early ↦ elim (Bool-cases (phases p.phase)) [
      | inr outside ↦ ([], p, ps, refl, tt, ground arith)
      | inl inside ↦
          let (before, q, after, split, all, end) = wait_from-some ps (ground arith) in
          (p ∷ before, q, after, ap (λ r. p ∷ r) split, (ground arith, all), end)
    ]
  ]

-- A loop that starts 30 seconds or more past a deadline (after a reconnect, say) finds none, and
-- answers at once that nothing expired, whatever the clock and the log say later.
pub wait_for-lapsed :
    (set start s : ℕ) (n : TimerName) (duration : ℕ) (redis : Redis) (phases : ExamPhase → Bool)
    (polls : List Poll)
    → set + duration + 30000 ≤ start
    → wait_for_phase_group_deadline start s n phases (set_deadline set s n duration redis).1 polls
      ≡ some false
unfolding wait_for_phase_group_deadline
wait_for-lapsed set start s n duration redis phases polls h =
    ground (arith, get-set_deadline_lapsed set start s n duration redis h)
