-- ===== src/Worker/Asr/Attribution.antt =====
-- Which turn a word belongs to (apps/worker/tasks/asr.py).
use session_replica_ielt.Prelude.{
  ℕ, ◌≤◌, ◌<◌, ◌≡◌, refl, ap, false, none, some, List, [], ◌∷◌, arith, Bool-cases, inl, inr,
}
use mathlib.Core.List.{Memᴰ}
use session_replica_ielt.Worker.Jobs.{TurnBoundary}
use session_replica_ielt.Worker.Media.Boundaries.{Contiguous}
use session_replica_ielt.Worker.Asr.{holds, find_turn, last_turn, or_clamped, turn_id_for_offset}

-- A turn whose interval holds an offset.
pub record TurnAt (ts : List TurnBoundary) (start_ms : ℕ) (turn_id : ℕ) : Type 0 where
  pub turn : TurnBoundary
  pub listed : Memᴰ turn ts
  pub named : turn.turn_id ≡ turn_id
  pub from_start : turn.start_ms ≤ start_ms
  pub before_end : start_ms < turn.end_ms

find_turn-TurnAt :
    (a b : ℕ) (ts : List TurnBoundary) (start_ms : ℕ)
    → Contiguous a ts b
    → a ≤ start_ms
    → start_ms < b
    → (turn_id : ℕ) × (find_turn ts start_ms ≡ some turn_id) × TurnAt ts start_ms turn_id
unfolding find_turn
find_turn-TurnAt a b [] start_ms c low high = absurd (ground (arith, c, low, high))
find_turn-TurnAt a b (t ∷ ts) start_ms c low high = elim (Bool-cases (holds start_ms t)) [
  | inl inside ↦ (
    t.turn_id,
    rw inside refl,
    record {
      turn = t;
      listed = Memᴰ.head refl;
      named = refl;
      from_start = ground (arith, inside);
      before_end = ground (arith, inside);
    },
  )
  | inr outside ↦
      let (same, le, rest) = c in
      let (i, found, at) =
        find_turn-TurnAt t.end_ms b ts start_ms rest (ground (arith, outside, low, same)) high in
      (
        i,
        rw outside found,
        record {
          turn = at.turn;
          listed = Memᴰ.tail at.listed;
          named = at.named;
          from_start = at.from_start;
          before_end = at.before_end;
        },
      )
]

-- On boundaries that follow one another without a gap, as `finalize_media` returns them, a word
-- that starts before their end is attributed to the turn whose interval holds its start.
pub turn_id_for_offset_inside :
    (ts : List TurnBoundary) (end_ms start_ms : ℕ)
    → Contiguous 0 ts end_ms
    → start_ms < end_ms
    → (turn_id : ℕ) × (turn_id_for_offset ts start_ms ≡ some turn_id) × TurnAt ts start_ms turn_id
unfolding turn_id_for_offset
turn_id_for_offset_inside [] end_ms start_ms c h = absurd (ground (arith, c, h))
turn_id_for_offset_inside (t ∷ ts) end_ms start_ms c h =
    let (i, found, at) = find_turn-TurnAt 0 end_ms (t ∷ ts) start_ms c (omega arith) h in
    (i, ap (λ o. some (or_clamped t ts start_ms o)) found, at)

Contiguous-le : (a b : ℕ) (ts : List TurnBoundary) → Contiguous a ts b → a ≤ b
Contiguous-le a b [] c = ground (arith, c)
Contiguous-le a b (t ∷ ts) c =
    let (same, le, rest) = c in omega (arith, same, le, Contiguous-le t.end_ms b ts rest)

find_turn-late :
    (a b : ℕ) (ts : List TurnBoundary) (start_ms : ℕ)
    → Contiguous a ts b
    → b ≤ start_ms
    → find_turn ts start_ms ≡ none
unfolding find_turn
find_turn-late a b [] start_ms c late = refl
find_turn-late a b (t ∷ ts) start_ms c late =
    let (same, le, rest) = c in
    let past : holds start_ms t ≡ false = ground (arith, Contiguous-le t.end_ms b ts rest, late) in
    rw past (find_turn-late t.end_ms b ts start_ms rest late)

-- A word that starts at or past the end of the last turn is attributed to the last turn.
pub turn_id_for_offset_late :
    (t : TurnBoundary) (ts : List TurnBoundary) (end_ms start_ms : ℕ)
    → Contiguous 0 (t ∷ ts) end_ms
    → end_ms ≤ start_ms
    → turn_id_for_offset (t ∷ ts) start_ms ≡ some (last_turn t ts)
unfolding turn_id_for_offset
turn_id_for_offset_late t ts end_ms start_ms c late =
    rw (find_turn-late 0 end_ms (t ∷ ts) start_ms c late) (ground (arith, c))
