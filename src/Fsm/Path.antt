-- ===== src/Fsm/Path.antt =====
-- The transition table and the replay of packages/exam-fsm along the line of phases of an exam.
use session_replica_ielt.Prelude.{
  ℕ, ◌+◌, ◌≡◌, refl, ◌↔◌, ◌≢◌, ◌⊎◌, inl, inr, Option, some, List, [], ◌∷◌, ◌++◌, append-nil,
  append_assoc, arith, get_elem?, take,
}
use session_replica_ielt.Fsm.Defs.{
  ExamPhase, init_device_check, id_verification, intro, part1_topic_a, part1_topic_b, part1_topic_c,
  part2_cuecard_present, part2_prep, part2_long_turn, part2_roundoff, part3_discussion, close,
  finalizing, complete, InvalidTransitionError, ExamEvent, device_check_confirmed, id_verified,
  intro_complete, topic_a_complete, topic_b_complete, topic_c_complete, cue_card_acked,
  prep_timer_expired, long_turn_ended, roundoff_complete, discussion_complete, close_delivered,
  finalize_complete, Outcome, reached, invalid, transition, fold_from, fold,
}

-- How many transitions lead to a phase.
abbrev pub rank : ExamPhase → ℕ
rank init_device_check = 0
rank id_verification = 1
rank intro = 2
rank part1_topic_a = 3
rank part1_topic_b = 4
rank part1_topic_c = 5
rank part2_cuecard_present = 6
rank part2_prep = 7
rank part2_long_turn = 8
rank part2_roundoff = 9
rank part3_discussion = 10
rank close = 11
rank finalizing = 12
rank complete = 13

-- The events of a whole exam, in order.
abbrev pub exam_path : List ExamEvent
exam_path =
    device_check_confirmed ∷ id_verified ∷ intro_complete ∷ topic_a_complete ∷ topic_b_complete
    ∷ topic_c_complete ∷ cue_card_acked ∷ prep_timer_expired ∷ long_turn_ended ∷ roundoff_complete
    ∷ discussion_complete ∷ close_delivered ∷ finalize_complete ∷ []

-- A transition goes one place down the path.
pub rank-transition :
    (p : ExamPhase) (e : ExamEvent) {q : ExamPhase}
    → transition p e ≡ reached q
    → rank q ≡ rank p + 1
unfolding transition
rank-transition p e h = ground arith

take-transition :
    (p : ExamPhase) (e : ExamEvent) {q : ExamPhase}
    → transition p e ≡ reached q
    → take (rank p) exam_path ++ e ∷ [] ≡ take (rank q) exam_path
unfolding transition
take-transition p e h = ground arith

pub Outcome-cases :
    (o : Outcome)
    → ((q : ExamPhase) × (o ≡ reached q)) ⊎ ((x : InvalidTransitionError) × (o ≡ invalid x))
Outcome-cases (reached q) = inl (q, refl)
Outcome-cases (invalid x) = inr (x, refl)

-- A replay that succeeds took a legal first step and went on from there.
pub fold_from-cons :
    (p : ExamPhase) (e : ExamEvent) (es : List ExamEvent) {q : ExamPhase}
    → fold_from p (e ∷ es) ≡ reached q
    → (r : ExamPhase) × (transition p e ≡ reached r) × (fold_from r es ≡ reached q)
unfolding fold_from
fold_from-cons p e es h = elim (Outcome-cases (transition p e)) [
  | inl (r, step) ↦ (r, step, ground arith)
  | inr (x, step) ↦ absurd (ground arith)
]

take-fold_from :
    (p : ExamPhase) (es : List ExamEvent) {q : ExamPhase}
    → fold_from p es ≡ reached q
    → take (rank p) exam_path ++ es ≡ take (rank q) exam_path
unfolding fold_from
take-fold_from p [] h = rw append-nil (ground arith)
take-fold_from p (e ∷ es) h =
    let (r, step, rest) = fold_from-cons p e es h in
    rw (← append_assoc _ (e ∷ []) es, take-transition p e step) (take-fold_from r es rest)

fold_from-append :
    (p : ExamPhase) (es : List ExamEvent) (e : ExamEvent) {q : ExamPhase}
    → fold_from p es ≡ reached q
    → fold_from p (es ++ e ∷ []) ≡ transition q e
unfolding fold_from
fold_from-append p [] e h = ground arith
fold_from-append p (d ∷ es) e h =
    let (r, step, rest) = fold_from-cons p d es h in ground (arith, fold_from-append r es e rest)

fold-take : (q : ExamPhase) → fold (take (rank q) exam_path) ≡ reached q
unfolding fold transition
fold-take init_device_check = refl
fold-take _ = refl

-- A log replays to a phase exactly when it is the exam's path up to that phase.
pub fold-take_iff :
    (es : List ExamEvent) (q : ExamPhase) → (fold es ≡ reached q) ↔ (es ≡ take (rank q) exam_path)
unfolding fold
fold-take_iff es q = (take-fold_from init_device_check es, λ e. rw e (fold-take q))

-- Replaying a log and then one more event is replaying the log, then one transition.
pub fold-append :
    (es : List ExamEvent) (e : ExamEvent) {p : ExamPhase}
    → fold es ≡ reached p
    → fold (es ++ e ∷ []) ≡ transition p e
unfolding fold
fold-append es e h = fold_from-append init_device_check es e h

-- The event that leaves a phase; none leaves `complete`.
abbrev pub exit_event : ExamPhase → Option ExamEvent
exit_event p = get_elem? exam_path (rank p)

-- From a phase the machine accepts the next event of the path and no other, and a refusal names
-- the phase and the event.
pub transition-exit :
    (p : ExamPhase) (e : ExamEvent)
    → (exit_event p ≡ some e × ((q : ExamPhase) × (transition p e ≡ reached q)))
      ⊎ ((exit_event p ≢ some e) × (transition p e ≡ invalid (record { phase = p; event = e })))
unfolding transition
transition-exit p e = ground arith
