-- ===== src/Gateway/Engine/Transitions.antt =====
-- What `transition` of fsm_engine.py does to the log, the snapshot and the other sessions.
use session_replica_ielt.Prelude.{
  ℕ, String, ◌≡◌, refl, ap, ◌≢◌, inl, inr, true, none, some, List, [], ◌∷◌, ◌++◌, ==_refl, ◌∙◌,
  Bool-cases, arith, take,
}
use session_replica_ielt.Prelude.Dict.{Dict, lookup}
use session_replica_ielt.Fsm
use session_replica_ielt.Fsm.{ExamPhase, ExamEvent, Outcome, reached, invalid}
use session_replica_ielt.Fsm.Path.{rank, exam_path, fold-append, fold-take_iff}
use session_replica_ielt.Gateway.Exceptions.{
  Error, invalid_transition, integrity_error, Result, ok, err, ◌>>=◌, Result-cases,
}
use session_replica_ielt.Gateway.Names.{phase_value}
use session_replica_ielt.Gateway.Tables.{
  ExamSessionEvent, ExamSession, Db, find_session, update_session,
}
use session_replica_ielt.Gateway.Tables.Laws.{find-update_session, find-update_session_ne}
use session_replica_ielt.Gateway.Engine.{
  order_by_seq, load_phase_events, phase_events, raised, fold_phase, get_current_phase, next_seq,
  transition_row, seq_taken, commit_row, planned, commit_planned, transition_after_read, transition,
}
use session_replica_ielt.Gateway.Engine.Log.{
  log, IsOrdered, load-IsOrdered, Ascending-next_seq, seq_taken-next_seq, log-append,
  phase_events-append, payload_event-transition_row, transition_row-event_type, any-append_self,
}

-- A call that raises leaves every table as it was.
pub transition_error_unchanged :
    (db : Db) (s : ℕ) (e : ExamEvent) (reason : String) (extra : Dict String) {x : Error}
    → (transition db s e reason extra).0 ≡ err x
    → (transition db s e reason extra).1 ≡ db
unfolding transition commit_row
transition_error_unchanged db s e reason extra h = ground arith

-- What a call writes: one row at the end of the table, with the next number of the session.
abbrev written :
    Db → ℕ → ExamEvent → ExamPhase → ExamPhase → String → Dict String → ExamSessionEvent
written db s e p q reason extra = transition_row s (next_seq (log db s)) e p q reason extra

abbrev committed : Db → ℕ → ExamEvent → ExamPhase → ExamPhase → String → Dict String → Db
committed db s e p q reason extra = record db {
  events = db.events ++ written db s e p q reason extra ∷ [];
  sessions = update_session s (λ r. record r { current_phase = some (phase_value q) }) db.sessions;
}

module _ (db : Db) (s : ℕ) (ordered : IsOrdered db s) where
  module _ {p : ExamPhase} (current : get_current_phase db s ≡ ok p) where
    fold_log : fold_phase (log db s) ≡ ok p
    unfolding get_current_phase
    fold_log = rw (load-IsOrdered db s ordered) at current

    -- An event that is not legal in the current phase raises, and names the two.
    pub transition_illegal :
        (e : ExamEvent) (reason : String) (extra : Dict String) {x : Fsm.InvalidTransitionError}
        → Fsm.transition p e ≡ invalid x
        → transition db s e reason extra ≡ (err (invalid_transition x), db)
    unfolding transition planned
    transition_illegal e reason extra h =
        rw (load-IsOrdered db s ordered) (ground (arith, fold_log))

    pub transition_writes :
        (e : ExamEvent) (reason : String) (extra : Dict String) {q : ExamPhase}
        → Fsm.transition p e ≡ reached q
        → transition db s e reason extra ≡ (ok q, committed db s e p q reason extra)
    unfolding transition planned commit_row transition_row
    transition_writes e reason extra h =
        rw (load-IsOrdered db s ordered) (ground (arith, fold_log, seq_taken-next_seq db s ordered))

raised-reached : (o : Outcome) {p : ExamPhase} → raised o ≡ ok p → o ≡ reached p
raised-reached (reached q) h = ground arith
raised-reached (invalid x) h = absurd (ground arith)

-- A log with a phase reads as events that replay to it.
pub fold_phase-ok :
    (rs : List ExamSessionEvent) {p : ExamPhase}
    → fold_phase rs ≡ ok p
    → (es : List ExamEvent) × (phase_events rs ≡ ok es) × (Fsm.fold es ≡ reached p)
unfolding fold_phase
fold_phase-ok rs h = elim (Result-cases (phase_events rs)) [
  | inl (es, read) ↦ (es, read, raised-reached (Fsm.fold es) (ground arith))
  | inr (x, read) ↦ absurd (ground arith)
]

fold_phase-append :
    (rs : List ExamSessionEvent) (x : ExamSessionEvent) (e : ExamEvent) {p : ExamPhase}
    → fold_phase rs ≡ ok p
    → phase_events (rs ++ x ∷ []) ≡ (phase_events rs >>= λ es. ok (es ++ e ∷ []))
    → fold_phase (rs ++ x ∷ []) ≡ raised (Fsm.transition p e)
unfolding fold_phase
fold_phase-append rs x e folded more =
    let (es, read, replay) = fold_phase-ok rs folded in ground (arith, fold-append es e replay)

module _ (db : Db) (s : ℕ) (ordered : IsOrdered db s) {p : ExamPhase}
    (current : get_current_phase db s ≡ ok p) where
  -- The log of a session in a phase holds the exam's path up to that phase, and nothing else.
  pub phase_events_path : phase_events (log db s) ≡ ok (take (rank p) exam_path)
  phase_events_path =
      let (es, read, replay) = fold_phase-ok (log db s) (fold_log db s ordered current) in
      rw read (ap ok ((fold-take_iff es p).0 replay))

  module _ (e : ExamEvent) (reason : String) (extra : Dict String) {q : ExamPhase}
      (legal : Fsm.transition p e ≡ reached q) (no_override : lookup "event" extra ≡ none) where
    read_written :
        phase_events (log db s ++ written db s e p q reason extra ∷ [])
        ≡ (phase_events (log db s) >>= λ es. ok (es ++ e ∷ []))
    read_written =
        phase_events-append (log db s) (written db s e p q reason extra)
          (transition_row-event_type s (next_seq (log db s)) e p q reason extra)
          (payload_event-transition_row s (next_seq (log db s)) e p q reason extra no_override)

    log-committed :
        log (committed db s e p q reason extra) s ≡ log db s ++ written db s e p q reason extra ∷ []
    unfolding transition_row
    log-committed = rw (log-append, ==_refl s) refl

    committed-IsOrdered : IsOrdered (committed db s e p q reason extra) s
    unfolding transition_row
    committed-IsOrdered = rw log-committed (Ascending-next_seq (log db s) _ ordered refl)

    committed-phase : get_current_phase (committed db s e p q reason extra) s ≡ ok q
    unfolding get_current_phase
    committed-phase =
        let row = written db s e p q reason extra in
        rw (load-IsOrdered (committed db s e p q reason extra) s committed-IsOrdered, log-committed)
          (rw
            (fold_phase-append (log db s) row e (fold_log db s ordered current) read_written, legal)
            refl)

    -- A legal event takes the session to the next phase: the call returns it, the log, read anew,
    -- gives it, and the log is numbered upwards as before.
    pub transition_moves :
        let (r, db') = transition db s e reason extra in
        (r ≡ ok q) × (get_current_phase db' s ≡ ok q) × IsOrdered db' s
    transition_moves =
        rw (transition_writes db s ordered current e reason extra legal)
          (refl, committed-phase, committed-IsOrdered)

    -- The snapshot on the session's row is the phase that the log gives.
    pub transition_snapshot :
        {row : ExamSession}
        → find_session s db.sessions ≡ some row
        → let db' = (transition db s e reason extra).1 in
          (find_session s db'.sessions ≡ some (record row { current_phase = some (phase_value q) }))
          × (get_current_phase db' s ≡ ok q)
    transition_snapshot found =
        rw (transition_writes db s ordered current e reason extra legal)
          (find-update_session s _ (λ r. refl) db.sessions found, committed-phase)

    seq_taken-committed :
        seq_taken (committed db s e p q reason extra) s (next_seq (log db s)) ≡ true
    unfolding seq_taken transition_row
    seq_taken-committed = rw log-committed (any-append_self (log db s) _)

    -- Of two connections that both read the log before either writes, the second to write meets
    -- the constraint on (session_id, seq): it raises, and the log stays as the first left it.
    pub transition_stale :
        (e' : ExamEvent) (reason' : String) (extra' : Dict String) {q' : ExamPhase}
        → Fsm.transition p e' ≡ reached q'
        → let db' = (transition db s e reason extra).1 in
          transition_after_read (load_phase_events db s) db' s e' reason' extra'
          ≡ (err integrity_error, db')
    unfolding transition_after_read planned commit_row transition_row
    transition_stale e' reason' extra' legal' =
        rw
          (transition_writes db s ordered current e reason extra legal, load-IsOrdered db s ordered)
          (ground (arith, fold_log db s ordered current, seq_taken-committed))

commit_row-others :
    (db : Db) (row : ExamSessionEvent) (next : ExamPhase) (t : ℕ)
    → t ≢ row.session_id
    → let db' = (commit_row db row next).1 in
      (load_phase_events db' t ≡ load_phase_events db t)
      × (find_session t db'.sessions ≡ find_session t db.sessions)
unfolding commit_row load_phase_events
commit_row-others db row next t ne = elim (Bool-cases (seq_taken db row.session_id row.seq)) [
  | inl taken ↦ rw taken (refl, refl)
  | inr free ↦ rw free (
    ap order_by_seq (log-append db.events row t ∙ ground arith),
    find-update_session_ne row.session_id _ (λ r. refl) t db.sessions ne,
  )
]

commit_planned-others :
    (events : List ExamSessionEvent) (db : Db) (s t : ℕ) (e : ExamEvent) (reason : String)
    (extra : Dict String) (plan : Result (ExamPhase × ExamPhase))
    → t ≢ s
    → let db' = (commit_planned events db s e reason extra plan).1 in
      (load_phase_events db' t ≡ load_phase_events db t)
      × (find_session t db'.sessions ≡ find_session t db.sessions)
unfolding commit_planned transition_row
commit_planned-others events db s t e reason extra (err x) ne = (refl, refl)
commit_planned-others events db s t e reason extra (ok (p, q)) ne =
    commit_row-others db (transition_row s (next_seq events) e p q reason extra) q t ne

-- Whatever a call does, the log and the row of every other session stay as they were.
pub transition_others :
    (db : Db) (s t : ℕ) (e : ExamEvent) (reason : String) (extra : Dict String)
    → t ≢ s
    → let db' = (transition db s e reason extra).1 in
      (load_phase_events db' t ≡ load_phase_events db t)
      × (find_session t db'.sessions ≡ find_session t db.sessions)
unfolding transition
transition_others db s t e reason extra ne =
    commit_planned-others (load_phase_events db s) db s t e reason extra
      (planned (fold_phase (load_phase_events db s)) e) ne
