-- ===== src/Gateway/Engine/Log.antt =====
-- A session's log, and what one more row does to it (fsm_engine.py).
use session_replica_ielt.Prelude.{
  ℕ, String, ◌<◌, ◌≡◌, refl, true, false, none, List, [], ◌∷◌, ◌++◌, ◌==◌, append-nil, arith,
  select, any, select-append, str_eq_iff, if◌then◌else◌,
}
use session_replica_ielt.Prelude.Dict.{Dict, lookup, lookup-merge}
use session_replica_ielt.Fsm.{ExamPhase, ExamEvent}
use session_replica_ielt.Gateway.Exceptions.{ok, ◌>>=◌}
use session_replica_ielt.Gateway.Names.{parse_event-event_value}
use session_replica_ielt.Gateway.Tables.{ExamSessionEvent, Db}
use session_replica_ielt.Gateway.Engine.{
  of_session, place_by_seq, order_by_seq, load_phase_events, payload_event, phase_events,
  phase_transition_event_type, transition_row, next_seq, seq_taken,
}

-- The sequence numbers rise, all above `n`.
abbrev pub Ascending : ℕ → List ExamSessionEvent → Type 0
Ascending n [] = Unit
Ascending n (r ∷ rs) = (n < r.seq) × Ascending r.seq rs

-- The rows of a session, in the order in which they were inserted.
abbrev pub log : Db → ℕ → List ExamSessionEvent
log db session_id = select (of_session session_id) db.events

-- The log of a session is numbered upwards in the order of insertion.
abbrev pub IsOrdered : Db → ℕ → Type 0
IsOrdered db session_id = Ascending 0 (log db session_id)

place_by_seq-Ascending :
    (n : ℕ) (r : ExamSessionEvent) (rs : List ExamSessionEvent)
    → Ascending n (r ∷ rs)
    → place_by_seq r rs ≡ r ∷ rs
unfolding place_by_seq
place_by_seq-Ascending n r [] h = refl
place_by_seq-Ascending n r (x ∷ rs) h = ground arith

pub order_by_seq-Ascending :
    (n : ℕ) (rs : List ExamSessionEvent) → Ascending n rs → order_by_seq rs ≡ rs
unfolding order_by_seq
order_by_seq-Ascending n [] h = refl
order_by_seq-Ascending n (r ∷ rs) h =
    rw (order_by_seq-Ascending r.seq rs h.1) (place_by_seq-Ascending n r rs h)

pub load-IsOrdered : (db : Db) (s : ℕ) → IsOrdered db s → load_phase_events db s ≡ log db s
unfolding load_phase_events
load-IsOrdered db s h = order_by_seq-Ascending 0 (log db s) h

Ascending-snoc :
    (n : ℕ) (r : ExamSessionEvent) (rs : List ExamSessionEvent) (x : ExamSessionEvent)
    → Ascending n (r ∷ rs)
    → x.seq ≡ next_seq (r ∷ rs)
    → Ascending n (r ∷ rs ++ x ∷ [])
unfolding next_seq
Ascending-snoc n r [] x h e = ground arith
Ascending-snoc n r (y ∷ rs) x h e = (h.0, Ascending-snoc r.seq y rs x h.1 e)

-- The row that comes next in a log keeps it numbered upwards.
pub Ascending-next_seq :
    (rs : List ExamSessionEvent) (x : ExamSessionEvent)
    → Ascending 0 rs
    → x.seq ≡ next_seq rs
    → Ascending 0 (rs ++ x ∷ [])
unfolding next_seq
Ascending-next_seq [] x h e = ground arith
Ascending-next_seq (r ∷ rs) x h e = Ascending-snoc 0 r rs x h e

below_next_seq :
    (n : ℕ) (r : ExamSessionEvent) (rs : List ExamSessionEvent)
    → Ascending n (r ∷ rs)
    → n < next_seq (r ∷ rs)
unfolding next_seq
below_next_seq n r [] h = ground arith
below_next_seq n r (y ∷ rs) h = ground (arith, below_next_seq r.seq y rs h.1)

fresh_above :
    (n m : ℕ) (rs : List ExamSessionEvent)
    → Ascending n rs
    → m ≡ next_seq rs
    → any (λ r. r.seq == m) rs ≡ false
unfolding next_seq
fresh_above n m [] h e = refl
fresh_above n m (r ∷ []) h e = ground arith
fresh_above n m (r ∷ y ∷ rs) h e =
    ground (arith, fresh_above r.seq m (y ∷ rs), below_next_seq r.seq y rs h.1)

-- The number that comes next is not taken.
pub seq_taken-next_seq :
    (db : Db) (s : ℕ) → IsOrdered db s → seq_taken db s (next_seq (log db s)) ≡ false
unfolding seq_taken
seq_taken-next_seq db s h = fresh_above 0 (next_seq (log db s)) (log db s) h refl

pub any-append_self :
    (rs : List ExamSessionEvent) (x : ExamSessionEvent)
    → any (λ r. r.seq == x.seq) (rs ++ x ∷ []) ≡ true
any-append_self [] x = ground arith
any-append_self (r ∷ rs) x = ground (arith, any-append_self rs x)

-- The rows of the session after one more row of it.
pub log-append :
    (rs : List ExamSessionEvent) (x : ExamSessionEvent) (s : ℕ)
    → select (of_session s) (rs ++ x ∷ [])
      ≡ (if x.session_id == s then select (of_session s) rs ++ x ∷ [] else select (of_session s) rs)
log-append rs x s =
    rw (select-append (of_session s) rs (x ∷ []))
      (ground (arith, append-nil (select (of_session s) rs)))

-- Reading the events of a log with one transition more.
pub phase_events-append :
    (rs : List ExamSessionEvent) (x : ExamSessionEvent) {e : ExamEvent}
    → x.event_type ≡ phase_transition_event_type
    → payload_event x ≡ ok e
    → phase_events (rs ++ x ∷ []) ≡ (phase_events rs >>= λ es. ok (es ++ e ∷ []))
unfolding phase_events
phase_events-append [] x t p = ground (arith, str_eq_iff x.event_type phase_transition_event_type)
phase_events-append (r ∷ rs) x t p = ground (arith, phase_events-append rs x t p)

-- The row that `transition` writes reads back as its event, unless `extra` overrides it.
pub payload_event-transition_row :
    (s n : ℕ) (e : ExamEvent) (p q : ExamPhase) (reason : String) (extra : Dict String)
    → lookup "event" extra ≡ none
    → payload_event (transition_row s n e p q reason extra) ≡ ok e
unfolding payload_event transition_row lookup
payload_event-transition_row s n e p q reason extra h =
    rw (lookup-merge "event" _ extra h)
      (ground (arith, str_eq_iff "event" "event", parse_event-event_value e))

pub transition_row-event_type :
    (s n : ℕ) (e : ExamEvent) (p q : ExamPhase) (reason : String) (extra : Dict String)
    → (transition_row s n e p q reason extra).event_type ≡ phase_transition_event_type
unfolding transition_row
transition_row-event_type s n e p q reason extra = refl
