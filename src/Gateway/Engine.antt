-- ===== src/Gateway/Engine.antt =====
-- apps/api-gateway/app/services/fsm_engine.py: the event-sourced wrapper of the state machine. A
-- function gets the tables and returns them with its result; an exception before the commit leaves
-- the tables as they were.
pub mod Log
pub mod Transitions
use session_replica_ielt.Prelude.{
  ℕ, ◌+◌, String, Bool, Option, none, some, List, [], ◌∷◌, ◌++◌, ◌==◌, leb, str_eq, if◌then◌else◌,
  select, any, get_last?,
}
use session_replica_ielt.Prelude.Dict.{Dict, lookup, merge}
use session_replica_ielt.Fsm
use session_replica_ielt.Fsm.{ExamPhase, ExamEvent, Outcome, reached, invalid}
use session_replica_ielt.Gateway.Exceptions.{
  invalid_transition, key_error, value_error, integrity_error, Result, ok, err, ◌>>=◌,
}
use session_replica_ielt.Gateway.Names.{phase_value, event_value, parse_event}
use session_replica_ielt.Gateway.Tables.{ExamSessionEvent, Db, update_session}

abbrev pub phase_transition_event_type : String
phase_transition_event_type = "PHASE_TRANSITION"

abbrev pub of_session : ℕ → ExamSessionEvent → Bool
of_session session_id e = e.session_id == session_id

-- `ORDER BY seq`
unfoldable pub place_by_seq : ExamSessionEvent → List ExamSessionEvent → List ExamSessionEvent
place_by_seq r [] = r ∷ []
place_by_seq r (x ∷ xs) = if leb r.seq x.seq then r ∷ x ∷ xs else x ∷ place_by_seq r xs

unfoldable pub order_by_seq : List ExamSessionEvent → List ExamSessionEvent
unfolding place_by_seq
order_by_seq [] = []
order_by_seq (x ∷ xs) = place_by_seq x (order_by_seq xs)

unfoldable pub load_phase_events : Db → ℕ → List ExamSessionEvent
load_phase_events db session_id = order_by_seq (select (of_session session_id) db.events)

-- `ExamEvent(event.payload["event"])`
abbrev pub named_event : Option String → Result ExamEvent
named_event none = err key_error
named_event (some text) = elim (parse_event text) [ none ↦ err value_error | some e ↦ ok e ]

unfoldable pub payload_event : ExamSessionEvent → Result ExamEvent
payload_event e = named_event (lookup "event" e.payload)

-- The list comprehension of `_fold_phase`.
unfoldable pub phase_events : List ExamSessionEvent → Result (List ExamEvent)
phase_events [] = ok []
phase_events (r ∷ rs) =
    if str_eq r.event_type phase_transition_event_type
    then (payload_event r >>= λ e. phase_events rs >>= λ es. ok (e ∷ es))
    else phase_events rs

abbrev pub raised : Outcome → Result ExamPhase
raised (reached p) = ok p
raised (invalid x) = err (invalid_transition x)

unfoldable pub fold_phase : List ExamSessionEvent → Result ExamPhase
fold_phase events = phase_events events >>= λ es. raised (Fsm.fold es)

unfoldable pub get_current_phase : Db → ℕ → Result ExamPhase
get_current_phase db session_id = fold_phase (load_phase_events db session_id)

-- `(events[-1].seq if events else 0) + 1`
abbrev last_seq : Option ExamSessionEvent → ℕ
last_seq none = 0
last_seq (some e) = e.seq

unfoldable pub next_seq : List ExamSessionEvent → ℕ
next_seq events = last_seq (get_last? events) + 1

-- The row that `transition` adds.
unfoldable pub transition_row :
    ℕ → ℕ → ExamEvent → ExamPhase → ExamPhase → String → Dict String → ExamSessionEvent
transition_row session_id seq event current next reason extra = record {
  session_id = session_id;
  seq = seq;
  event_type = phase_transition_event_type;
  payload =
      merge
        (("event", event_value event)
          ∷ ("from", phase_value current)
          ∷ ("to", phase_value next)
          ∷ ("reason", reason)
          ∷ [])
        extra;
}

-- `UniqueConstraint("session_id", "seq")`
unfoldable pub seq_taken : Db → ℕ → ℕ → Bool
seq_taken db session_id n = any (λ r. r.seq == n) (select (of_session session_id) db.events)

-- The insert, the snapshot and the commit, which raises where the key is taken.
unfoldable pub commit_row : Db → ExamSessionEvent → ExamPhase → Result ExamPhase × Db
commit_row db row next =
    if seq_taken db row.session_id row.seq then (err integrity_error, db) else (
      ok next,
      record db {
        events = db.events ++ row ∷ [];
        sessions =
            update_session row.session_id
              (λ s. record s { current_phase = some (phase_value next) }) db.sessions;
      },
    )

-- The current phase and the next one.
unfoldable pub planned : Result ExamPhase → ExamEvent → Result (ExamPhase × ExamPhase)
planned current event = current >>= λ p. raised (Fsm.transition p event) >>= λ q. ok (p, q)

-- The write, with the events that were read.
unfoldable pub commit_planned :
    List ExamSessionEvent
    → Db
    → ℕ
    → ExamEvent
    → String
    → Dict String
    → Result (ExamPhase × ExamPhase)
    → Result ExamPhase × Db
commit_planned events db session_id event reason extra (err e) = (err e, db)
commit_planned events db session_id event reason extra (ok (p, q)) =
    commit_row db (transition_row session_id (next_seq events) event p q reason extra) q

-- `transition`, from the events that it has read on. Another connection may have committed in
-- between, so `db` need not be the tables that `events` were read from.
unfoldable pub transition_after_read :
    List ExamSessionEvent → Db → ℕ → ExamEvent → String → Dict String → Result ExamPhase × Db
unfolding commit_planned
transition_after_read events db session_id event reason extra =
    commit_planned events db session_id event reason extra (planned (fold_phase events) event)

unfoldable pub transition : Db → ℕ → ExamEvent → String → Dict String → Result ExamPhase × Db
unfolding transition_after_read
transition db session_id event reason extra =
    transition_after_read (load_phase_events db session_id) db session_id event reason extra
