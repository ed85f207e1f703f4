-- ===== src/Gateway/Tables/Laws.antt =====
-- Rows that are looked up after an update (apps/api-gateway/app/models).
use session_replica_ielt.Prelude.{
  ℕ, ◌≡◌, refl, ap, ◌≢◌, inl, inr, some, List, [], ◌∷◌, ◌==◌, Bool-cases, ◌∙◌, arith,
}
use mathlib.Core.Option
use session_replica_ielt.Gateway.Tables.{ExamSession, find_session, update_session}

module _ (i : ℕ) (f : ExamSession → ExamSession)
    (same_id : (s : ExamSession) → (f s).id ≡ s.id) where
  pub find-update_session :
      (ss : List ExamSession) {s : ExamSession}
      → find_session i ss ≡ some s
      → find_session i (update_session i f ss) ≡ some (f s)
  unfolding find_session update_session
  find-update_session [] h = ground arith
  find-update_session (s ∷ ss) h = elim (Bool-cases (s.id == i)) [
    | inl hit ↦
        rw (hit, ap (λ k. k == i) (same_id s) ∙ hit) (ap (λ o. Option.map f o) (rw hit at h))
    | inr miss ↦ rw (miss, miss) (find-update_session ss (rw miss at h))
  ]

  pub find-update_session_ne :
      (j : ℕ) (ss : List ExamSession)
      → j ≢ i
      → find_session j (update_session i f ss) ≡ find_session j ss
  unfolding find_session update_session
  find-update_session_ne j [] h = refl
  find-update_session_ne j (s ∷ ss) h = ground (arith, same_id s, find-update_session_ne j ss h)
