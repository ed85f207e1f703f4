-- ===== src/Gateway/Sessions/Creation.antt =====
-- A new session, and who sees it (apps/api-gateway/app/routers/sessions.py).
use session_replica_ielt.Prelude.{
  ℕ, ◌≡◌, refl, ◌∙◌, ap, ◌↔◌, ◌==◌, ==_refl, String, Option, none, some, List, [], ◌∷◌, ◌++◌, false,
  arith,
}
use session_replica_ielt.Fsm
use session_replica_ielt.Fsm.{ExamPhase, ExamEvent, initial_phase, reached}
use session_replica_ielt.Gateway.Exceptions.{ok}
use session_replica_ielt.Gateway.Tables.{ExamSession, Candidate, Db, find_session}
use session_replica_ielt.Gateway.Engine
use session_replica_ielt.Gateway.Engine.{get_current_phase, transition}
use session_replica_ielt.Gateway.Engine.Transitions.{transition_writes}
use session_replica_ielt.Gateway.Engine.Log.{log, IsOrdered, load-IsOrdered, log-append}
use session_replica_ielt.Gateway.Accounts.{not_found, Response, responded, failed}
use session_replica_ielt.Gateway.Sessions.{
  SessionResponse, response_of, new_session, created_event, create_session, owned, and_respond,
  get_session,
}

find_session-append :
    (s : ExamSession) (ss : List ExamSession)
    → find_session s.id ss ≡ none
    → find_session s.id (ss ++ s ∷ []) ≡ some s
unfolding find_session
find_session-append s [] h = ground (arith, ==_refl s.id)
find_session-append s (r ∷ ss) h = ground (arith, find_session-append s ss)

find_session-append_ne :
    (j : ℕ) (s : ExamSession) (ss : List ExamSession)
    → (s.id == j) ≡ false
    → find_session j (ss ++ s ∷ []) ≡ find_session j ss
unfolding find_session
find_session-append_ne j s [] h = ground (arith, h)
find_session-append_ne j s (r ∷ ss) h = ground (arith, find_session-append_ne j s ss)

-- An `ok` answer has a value behind it.
and_respond-responded :
    {A B : Type 0} (x : Response A) (f : A → B) {b : B}
    → and_respond x f ≡ responded b
    → (a : A) × (x ≡ responded a) × (f a ≡ b)
and_respond-responded (responded a) f h = (a, refl, ground (arith, h))
and_respond-responded (failed e) f h = absurd (ground (arith, h))

owned-responded :
    (candidate : Candidate) (o : Option ExamSession) {s : ExamSession}
    → owned candidate o ≡ responded s
    → (o ≡ some s) × (s.candidate_id ≡ candidate.id)
unfolding owned
owned-responded candidate none h = absurd (ground (arith, h))
owned-responded candidate (some r) h = ground (arith, h)

-- A candidate sees exactly their own sessions.
pub get_session_iff :
    (session_id : ℕ) (candidate : Candidate) (db : Db) (r : SessionResponse)
    → (get_session session_id candidate db ≡ responded r) ↔ (
        (s : ExamSession) × (find_session session_id db.sessions ≡ some s)
        × (s.candidate_id ≡ candidate.id)
        × (response_of s ≡ r))
unfolding get_session owned
get_session_iff session_id candidate db r = (
  λ h.
      let (s, mine, same) =
        and_respond-responded (owned candidate (find_session session_id db.sessions)) response_of
          h in
      let (found, owner) = owned-responded candidate (find_session session_id db.sessions) mine in
      (s, found, owner, same),
  λ (s, found, owner, same).
      rw (found, owner, ==_refl candidate.id, get_session) (ap responded same),
)

-- The tables after `create_session`.
abbrev pub created_db : (ℕ → String) → Candidate → ℕ → ℕ → Db → Db
created_db show candidate id resume_token db = (create_session show candidate id resume_token db).1

module _ (show : ℕ → String) (candidate : Candidate) (id resume_token : ℕ) (db : Db)
    (unused : find_session id db.sessions ≡ none) (unlogged : log db id ≡ []) where
  abbrev after : Db
  after = created_db show candidate id resume_token db

  created_log : log after id ≡ created_event show candidate id ∷ []
  unfolding create_session
  created_log =
      log-append db.events (created_event show candidate id) id ∙ rw (==_refl id) (rw unlogged refl)

  created-IsOrdered : IsOrdered after id
  created-IsOrdered = rw created_log (omega arith, tt)

  created_phase : get_current_phase after id ≡ ok initial_phase
  unfolding get_current_phase Engine.fold_phase Engine.phase_events Fsm.fold Fsm.fold_from
  created_phase = rw (load-IsOrdered after id created-IsOrdered, created_log) refl

  created_row : find_session id after.sessions ≡ some (new_session candidate id resume_token)
  unfolding create_session
  created_row = find_session-append (new_session candidate id resume_token) db.sessions unused

  others_kept :
      (j : ℕ) → (id == j) ≡ false → find_session j after.sessions ≡ find_session j db.sessions
  unfolding create_session
  others_kept j other =
      find_session-append_ne j (new_session candidate id resume_token) db.sessions other

  logs_kept : (j : ℕ) → (id == j) ≡ false → log after j ≡ log db j
  unfolding create_session
  logs_kept j other = log-append db.events (created_event show candidate id) j ∙ rw other refl

  -- A session created with an id that no row and no event has starts in the first phase and every
  -- legal event moves it on; its candidate sees it, nobody else does, and the other sessions are as
  -- before.
  pub create_session_starts :
      (get_current_phase after id ≡ ok initial_phase)
      × ((e : ExamEvent) (reason : String) (q : ExamPhase)
          → Fsm.transition initial_phase e ≡ reached q
          → (transition after id e reason []).0 ≡ ok q)
      × (get_session id candidate after
          ≡ responded (create_session show candidate id resume_token db).0)
      × ((c : Candidate)
          → (candidate.id == c.id) ≡ false
          → get_session id c after ≡ failed not_found)
      × ((j : ℕ)
          → (id == j) ≡ false
          → (find_session j after.sessions ≡ find_session j db.sessions) × (log after j ≡ log db j))
  unfolding get_session owned create_session
  create_session_starts = (
    created_phase,
    λ e reason q legal.
        ap (λ m. m.0)
          (transition_writes after id created-IsOrdered created_phase e reason [] legal),
    rw (created_row, get_session) (rw (==_refl candidate.id) refl),
    λ c other. rw (created_row, get_session) (rw other refl),
    λ j other. (others_kept j other, logs_kept j other),
  )
