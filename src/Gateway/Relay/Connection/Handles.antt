-- ===== src/Gateway/Relay/Connection/Handles.antt =====
-- A resumption handle from one connection to the next (ws_exam.py).
use session_replica_ielt.Prelude.{
  ℕ, String, ◌≡◌, ◌≢◌, refl, sym, ap, ◌∙◌, inl, inr, Option-cases, ◌==◌, ==_refl, true, false,
  Option, some, arith,
}
use session_replica_ielt.Gateway.Settings.{Settings}
use session_replica_ielt.Gateway.Tables.{ExamSession, find_session}
use session_replica_ielt.Gateway.Tables.Laws.{find-update_session}
use session_replica_ielt.Gateway.Accounts.{policy_violation, responded, failed}
use session_replica_ielt.Gateway.Orchestrator.State.{State}
use session_replica_ielt.Gateway.Relay.{
  resumption_update, on_gemini_event, persist_resumption_handle,
}
use session_replica_ielt.Gateway.Relay.Connection.{authenticate}

apart : (i j : ℕ) → i ≢ j → (i == j) ≡ false
apart i j h = ground (arith, h)

module _ {Token : Type 0} (verify : ℕ → Token → Option ℕ) (cfg : Settings) (handle : String)
    (w : State) {s : ExamSession} (found : find_session w.session_id w.db.sessions ≡ some s) where
  abbrev updated : State
  updated = (on_gemini_event cfg (resumption_update true handle) w).1

  stored :
      find_session w.session_id updated.db.sessions
      ≡ some (record s { gemini_resumption_handle = some handle })
  unfolding on_gemini_event persist_resumption_handle
  stored =
      find-update_session w.session_id (λ r. record r { gemini_resumption_handle = some handle })
        (λ r. refl) w.db.sessions found

  -- Once Gemini has sent a handle that can be resumed, the session's candidate who connects with a
  -- valid token gets that handle, and a token of anybody else or an invalid one is refused.
  pub handle_resumes :
      (now : ℕ) (token : Token)
      → (verify now token ≡ some s.candidate_id
          → authenticate verify now token w.session_id updated.db ≡ responded (some handle))
        × (verify now token ≢ some s.candidate_id
            → authenticate verify now token w.session_id updated.db ≡ failed policy_violation)
  unfolding authenticate
  handle_resumes now token = (
    λ valid. rw (valid, stored, ==_refl s.candidate_id, authenticate) refl,
    λ other. elim (Option-cases (verify now token)) [
      | inl invalid ↦ rw (invalid, authenticate) refl
      | inr (i, valid) ↦
          rw (valid, stored, authenticate)
            (rw (apart s.candidate_id i (λ e. other (valid ∙ ap some (sym e)))) refl)
    ],
  )
