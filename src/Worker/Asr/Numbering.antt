-- ===== src/Worker/Asr/Numbering.antt =====
-- The numbers of the words and the replacement of a session's rows (apps/worker/tasks/asr.py).
use session_replica_ielt.Prelude.{
  ℕ, ◌+◌, ◌≤◌, ◌<◌, ◌≡◌, ◌≢◌, refl, ap, sym, ◌∙◌, not, some, List, [], ◌∷◌, arith, Option-cases,
  inl, inr, ◌==◌, ==_refl, All, select, select-append, append-nil, subst,
}
use mathlib.Core.Option.{some-injective}
use session_replica_ielt.Worker.Jobs.{TurnBoundary}
use session_replica_ielt.Worker.Asr.{
  WordResult, Transcript, SeqByTurn, seq_of, transcript_row, rows_from, replace_rows, persist_words,
  turn_id_for_offset,
}

-- Every row's number is at least the next one of its turn, and the row is the session's.
abbrev Above : ℕ → SeqByTurn → Transcript → Type 0
Above session_id d r = (seq_of r.turn_id d ≤ r.seq) × (r.session_id ≡ session_id)

-- Within a turn the numbers of the rows go up.
abbrev pub Increasing : List Transcript → Type 0
Increasing [] = Unit
Increasing (r ∷ rs) = All (λ x. x.turn_id ≡ r.turn_id → r.seq < x.seq) rs × Increasing rs

weaken :
    (session_id t n : ℕ) (d : SeqByTurn) (rs : List Transcript)
    → seq_of t d ≤ n
    → All (Above session_id ((t, n) ∷ d)) rs
    → All (Above session_id d) rs
unfolding seq_of
weaken session_id t n d [] h all = tt
weaken session_id t n d (r ∷ rs) h all =
    (ground (arith, all.0, h), weaken session_id t n d rs h all.1)

Above-next :
    (session_id t n : ℕ) (d : SeqByTurn) (rs : List Transcript)
    → All (Above session_id ((t, n + 1) ∷ d)) rs
    → All (λ x. x.turn_id ≡ t → n < x.seq) rs
unfolding seq_of
Above-next session_id t n d [] all = tt
Above-next session_id t n d (r ∷ rs) all =
    ((λ same. ground (arith, all.0, same)), Above-next session_id t n d rs all.1)

record Numbered (session_id : ℕ) (d : SeqByTurn) (rs : List Transcript) : Type 0 where
  above : All (Above session_id d) rs
  increasing : Increasing rs

first-Numbered :
    (session_id t : ℕ) (d : SeqByTurn) (w : WordResult) (rest : List Transcript)
    → Numbered session_id ((t, seq_of t d + 1) ∷ d) rest
    → Numbered session_id d (transcript_row session_id t (seq_of t d) w ∷ rest)
unfolding transcript_row
first-Numbered session_id t d w rest k = record {
  above = ((omega arith, refl), weaken session_id t (seq_of t d + 1) d rest (omega arith) k.above);
  increasing = (Above-next session_id t (seq_of t d) d rest k.above, k.increasing);
}

rows_from-Numbered :
    (session_id : ℕ) (tb : List TurnBoundary) (d : SeqByTurn) (ws : List WordResult)
    {rs : List Transcript}
    → rows_from session_id tb d ws ≡ some rs
    → Numbered session_id d rs
unfolding rows_from
rows_from-Numbered session_id tb d [] h =
    subst (Numbered session_id d) (some-injective [] _ h) (record { above = tt; increasing = tt })
rows_from-Numbered session_id tb d (w ∷ ws) {rs} h =
    elim (Option-cases (turn_id_for_offset tb w.start_ms)) [
      | inl lost ↦ absurd (ground (arith, rw (lost, rows_from) at h))
      | inr (t, found) ↦
          elim (Option-cases (rows_from session_id tb ((t, seq_of t d + 1) ∷ d) ws)) [
            | inl lost ↦ absurd (ground (arith, rw (found, rows_from) at h, lost))
            | inr (rest, more) ↦
                let tail = rows_from-Numbered session_id tb ((t, seq_of t d + 1) ∷ d) ws more in
                subst (Numbered session_id d)
                  (some-injective (transcript_row session_id t (seq_of t d) w ∷ rest) rs
                    (sym (rw (found, more, rows_from) refl) ∙ h))
                  (first-Numbered session_id t d w rest tail)
          ]
    ]

-- The rows of a session.
abbrev pub rows_of : ℕ → List Transcript → List Transcript
rows_of session_id table = select (λ r. r.session_id == session_id) table

module _ (session_id : ℕ) where
  none_left :
      (table : List Transcript)
      → rows_of session_id (select (λ r. not (r.session_id == session_id)) table) ≡ []
  none_left [] = refl
  none_left (r ∷ table) = ground (arith, none_left table)

  rows_of-own :
      (d : SeqByTurn) (rows : List Transcript)
      → All (Above session_id d) rows
      → rows_of session_id rows ≡ rows
  rows_of-own d [] all = refl
  rows_of-own d (r ∷ rows) all = rw (all.0.1, ==_refl session_id, rows_of-own d rows all.1) refl

  others_kept :
      (other : ℕ)
      → other ≢ session_id
      → (table : List Transcript)
      → rows_of other (select (λ r. not (r.session_id == session_id)) table) ≡ rows_of other table
  others_kept other ne [] = refl
  others_kept other ne (r ∷ table) = ground (arith, ne, others_kept other ne table)

  none_other :
      (other : ℕ)
      → other ≢ session_id
      → (d : SeqByTurn) (rows : List Transcript) → All (Above session_id d) rows
      → rows_of other rows ≡ []
  none_other other ne d [] all = refl
  none_other other ne d (r ∷ rows) all = ground (arith, all.0, ne, none_other other ne d rows all.1)

-- When the words are stored, the session's rows are those of this transcription and no other,
-- whatever an earlier run left there; within a turn their numbers go up, so no two have the key of
-- another; and the rows of other sessions are those from before.
pub persist_words_replaces :
    (session_id : ℕ) (tb : List TurnBoundary) (words : List WordResult) (table : List Transcript)
    {table' : List Transcript}
    → persist_words session_id tb words table ≡ some table'
    → (some (rows_of session_id table') ≡ rows_from session_id tb [] words)
      × Increasing (rows_of session_id table')
      × ((other : ℕ) → other ≢ session_id → rows_of other table' ≡ rows_of other table)
unfolding persist_words replace_rows
persist_words_replaces session_id tb words table {table'} h =
    elim (Option-cases (rows_from session_id tb [] words)) [
      | inl lost ↦ absurd (ground (arith, h, lost))
      | inr (rows, got) ↦
          let k = rows_from-Numbered session_id tb [] words got in
          let same : replace_rows session_id rows table ≡ table' = ground (arith, h, got) in
          let own : rows_of session_id table' ≡ rows =
            ap (rows_of session_id) (sym same)
            ∙ select-append (λ r. r.session_id == session_id) _ rows
            ∙ rw (none_left session_id table) (rows_of-own session_id [] rows k.above) in
          (
            ap some own ∙ sym got,
            subst Increasing (sym own) k.increasing,
            λ other ne.
                ap (rows_of other) (sym same)
                ∙ select-append (λ r. r.session_id == other) _ rows
                ∙ rw
                    (
                      others_kept session_id other ne table,
                      none_other session_id other ne [] rows k.above,
                    )
                    (append-nil (rows_of other table)),
          )
    ]
