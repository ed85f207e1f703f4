-- ===== src/Gateway/Orchestrator/Coherence.antt =====
-- The driver's phase against the event log, across `_advance` (exam_orchestrator.py).
use session_replica_ielt.Prelude.{
  ℕ, zero, suc, String, ◌≡◌, refl, inl, inr, Bool, true, false, none, [], if◌then◌else◌, ◌∙◌, arith,
  Bool-cases,
}
use session_replica_ielt.Prelude.Dict.{lookup}
use session_replica_ielt.Fsm.Path.{Outcome-cases}
use session_replica_ielt.Fsm
use session_replica_ielt.Fsm.{ExamPhase, ExamEvent, reached, invalid}
use session_replica_ielt.Gateway.Exceptions.{Result, ok, err, invalid_transition}
use session_replica_ielt.Gateway.Tables.{Db}
use session_replica_ielt.Gateway.Engine
use session_replica_ielt.Gateway.Engine.Log.{IsOrdered}
use session_replica_ielt.Gateway.Engine.Transitions.{transition_moves, transition_illegal}
use session_replica_ielt.Gateway.Settings.{Settings}
use session_replica_ielt.Gateway.Orchestrator.State.{State, Action, ⊤, pure, ◌>>=◌, ◌>>◌}
use session_replica_ielt.Gateway.Orchestrator.Advance.{
  commit_transition, after_transition, on_enter_phase, enter_intro, open_part1, enter_topic,
  enter_cuecard_present, enter_prep, enter_long_turn, enter_roundoff, enter_discussion,
  enter_finalizing, enter_complete, advance_within, advance, is_empty, start_finalizing_watchdog,
}

-- The phase in memory is the phase of the log, and the log is numbered upwards.
pub record Coherent (w : State) : Type 0 where
  pub ordered : IsOrdered w.db w.session_id
  pub cached : Engine.get_current_phase w.db w.session_id ≡ ok w.phase

-- What the log of the connection's session consists of.
pub record SameLog (w w' : State) : Type 0 where
  pub events : w'.db.events ≡ w.db.events
  pub session : w'.session_id ≡ w.session_id
  pub phase : w'.phase ≡ w.phase

pub enter_intro-SameLog : (cfg : Settings) (w : State) → SameLog w (enter_intro cfg w).1
unfolding enter_intro
enter_intro-SameLog cfg w = ground arith

pub enter_topic-SameLog : (slot : String) (w : State) → SameLog w (enter_topic slot w).1
unfolding enter_topic
enter_topic-SameLog slot w = ground arith

pub open_part1-SameLog : (cfg : Settings) (w : State) → SameLog w (open_part1 cfg w).1
unfolding open_part1
open_part1-SameLog cfg w = ground arith

pub enter_cuecard_present-SameLog : (w : State) → SameLog w (enter_cuecard_present w).1
unfolding enter_cuecard_present
enter_cuecard_present-SameLog w = ground arith

pub enter_prep-SameLog : (cfg : Settings) (w : State) → SameLog w (enter_prep cfg w).1
unfolding enter_prep
enter_prep-SameLog cfg w = ground arith

pub enter_long_turn-SameLog : (cfg : Settings) (w : State) → SameLog w (enter_long_turn cfg w).1
unfolding enter_long_turn
enter_long_turn-SameLog cfg w = ground arith

pub enter_roundoff-SameLog : (w : State) → SameLog w (enter_roundoff w).1
unfolding enter_roundoff
enter_roundoff-SameLog w = ground arith

pub enter_discussion-SameLog : (cfg : Settings) (w : State) → SameLog w (enter_discussion cfg w).1
unfolding enter_discussion
enter_discussion-SameLog cfg w = ground arith

pub start_finalizing-SameLog : (w : State) → SameLog w (start_finalizing_watchdog w).1
unfolding start_finalizing_watchdog
start_finalizing-SameLog w = ground arith

pub enter_complete-SameLog : (w : State) → SameLog w (enter_complete w).1
unfolding enter_complete
enter_complete-SameLog w = ground arith

get_current_phase-events :
    (db db' : Db) (s : ℕ)
    → db'.events ≡ db.events
    → Engine.get_current_phase db' s ≡ Engine.get_current_phase db s
unfolding Engine.get_current_phase Engine.load_phase_events
get_current_phase-events db db' s e = rw e refl

pub Coherent-SameLog : {w w' : State} → Coherent w → SameLog w w' → Coherent w'
Coherent-SameLog {w} {w'} c k = record {
  ordered = rw (k.session, k.events) c.ordered;
  cached =
      rw (k.session, k.phase)
        (get_current_phase-events w.db w'.db w.session_id k.events ∙ c.cached);
}

-- An action that leaves a coherent state coherent, however it ends.
abbrev pub Keeps : {A : Type 0} → Action A → Type 0
Keeps m = (w : State) → Coherent w → Coherent (m w).1

continue-Keeps :
    {A B : Type 0} (f : A → Action B)
    → ((a : A) → Keeps (f a))
    → (r : Result A × State) → Coherent r.1
    → Coherent (((λ w. r) >>= f) r.1).1
continue-Keeps f k (ok a, w) c = k a w c
continue-Keeps f k (err e, w) c = c

pub >>=-Keeps :
    {A B : Type 0} (m : Action A) (f : A → Action B)
    → Keeps m
    → ((a : A) → Keeps (f a))
    → Keeps (m >>= f)
>>=-Keeps m f km kf w c = continue-Keeps f kf (m w) (km w c)

pub >>-Keeps : {A B : Type 0} (m : Action A) (n : Action B) → Keeps m → Keeps n → Keeps (m >> n)
>>-Keeps m n km kn = >>=-Keeps m (λ _. n) km (λ _. kn)

enter_finalizing-Keeps : (again : Action ⊤) → Keeps again → Keeps (enter_finalizing again)
unfolding enter_finalizing
enter_finalizing-Keeps again k w c = elim (Bool-cases (is_empty w.pending_flush_turn_ids)) [
  | inl e ↦ rw (e, enter_finalizing) (k w c)
  | inr n ↦ rw (n, enter_finalizing) (Coherent-SameLog c (start_finalizing-SameLog w))
]

on_enter_phase-Keeps :
    (cfg : Settings) (again : Action ⊤) (p : ExamPhase)
    → Keeps again
    → Keeps (on_enter_phase cfg again p)
unfolding on_enter_phase
on_enter_phase-Keeps cfg again Fsm.intro k w c = Coherent-SameLog c (enter_intro-SameLog cfg w)
on_enter_phase-Keeps cfg again Fsm.part1_topic_a k w c =
    >>-Keeps (open_part1 cfg) (enter_topic "A")
      (λ v d. Coherent-SameLog d (open_part1-SameLog cfg v))
      (λ v d. Coherent-SameLog d (enter_topic-SameLog "A" v)) w c
on_enter_phase-Keeps cfg again Fsm.part1_topic_b k w c =
    Coherent-SameLog c (enter_topic-SameLog "B" w)
on_enter_phase-Keeps cfg again Fsm.part1_topic_c k w c =
    Coherent-SameLog c (enter_topic-SameLog "C" w)
on_enter_phase-Keeps cfg again Fsm.part2_cuecard_present k w c =
    Coherent-SameLog c (enter_cuecard_present-SameLog w)
on_enter_phase-Keeps cfg again Fsm.part2_prep k w c = Coherent-SameLog c (enter_prep-SameLog cfg w)
on_enter_phase-Keeps cfg again Fsm.part2_long_turn k w c =
    Coherent-SameLog c (enter_long_turn-SameLog cfg w)
on_enter_phase-Keeps cfg again Fsm.part2_roundoff k w c =
    Coherent-SameLog c (enter_roundoff-SameLog w)
on_enter_phase-Keeps cfg again Fsm.part3_discussion k w c =
    Coherent-SameLog c (enter_discussion-SameLog cfg w)
on_enter_phase-Keeps cfg again Fsm.close k w c =
    Coherent-SameLog c (record { events = refl; session = refl; phase = refl })
on_enter_phase-Keeps cfg again Fsm.finalizing k w c = enter_finalizing-Keeps again k w c
on_enter_phase-Keeps cfg again Fsm.complete k w c = Coherent-SameLog c (enter_complete-SameLog w)
on_enter_phase-Keeps cfg again Fsm.init_device_check k w c = c
on_enter_phase-Keeps cfg again Fsm.id_verification k w c = c

pub no_extra : lookup {V = String} "event" [] ≡ none
unfolding lookup
no_extra = refl

-- The state once a legal transition is committed and the fields are set.
abbrev pub moved_to : ExamEvent → String → ExamPhase → State → State
moved_to event reason q w = record w {
  db = (Engine.transition w.db w.session_id event reason []).1;
  phase = q;
  turns_in_phase = 0;
  turns_since_reanchor = 0;
}

module _ (w : State) (c : Coherent w) (event : ExamEvent) (reason : String) where
  module _ {q : ExamPhase} (legal : Fsm.transition w.phase event ≡ reached q) where
    pub moved_to-Coherent : Coherent (moved_to event reason q w)
    moved_to-Coherent =
        let (answer, phase, ordered) =
          transition_moves w.db w.session_id c.ordered c.cached event reason [] legal no_extra in
        record { ordered = ordered; cached = phase }

    pub commit_legal :
        commit_transition event reason w
        ≡ (ok q, record w { db = (Engine.transition w.db w.session_id event reason []).1 })
    unfolding commit_transition
    commit_legal =
        rw
          ((transition_moves w.db w.session_id c.ordered c.cached event reason [] legal no_extra).0)
          refl

  pub commit_illegal :
      {x : Fsm.InvalidTransitionError}
      → Fsm.transition w.phase event ≡ invalid x
      → commit_transition event reason w ≡ (err (invalid_transition x), w)
  unfolding commit_transition
  commit_illegal illegal =
      rw (transition_illegal w.db w.session_id c.ordered c.cached event reason [] illegal) refl

announced-Keeps :
    (cfg : Settings) (again : Action ⊤) (announce : Bool) (q : ExamPhase)
    → Keeps again
    → Keeps (if announce then on_enter_phase cfg again q else pure tt)
announced-Keeps cfg again true q k = on_enter_phase-Keeps cfg again q k
announced-Keeps cfg again false q k = λ w c. c

advance_within-Keeps :
    (depth : ℕ) (cfg : Settings) (event : ExamEvent) (reason : String) (announce : Bool)
    → Keeps (advance_within depth cfg event reason announce)
unfolding advance_within after_transition
advance_within-Keeps zero cfg event reason announce w c = c
advance_within-Keeps (suc depth) cfg event reason announce w c =
    elim (Outcome-cases (Fsm.transition w.phase event)) [
      | inr (x, illegal) ↦ rw (commit_illegal w c event reason illegal) c
      | inl (q, legal) ↦ rw (commit_legal w c event reason legal) (
          announced-Keeps cfg
            (advance_within depth cfg Fsm.finalize_complete "no_pending_media" true) announce q
            (advance_within-Keeps depth cfg Fsm.finalize_complete "no_pending_media" true)
            (moved_to event reason q w) (moved_to-Coherent w c event reason legal))
    ]

-- Whatever `_advance` is asked, and however it ends, the driver's phase is the log's.
pub advance-Keeps :
    (cfg : Settings) (event : ExamEvent) (reason : String) (announce : Bool)
    → Keeps (advance cfg event reason announce)
unfolding advance
advance-Keeps cfg event reason announce = advance_within-Keeps 2 cfg event reason announce
