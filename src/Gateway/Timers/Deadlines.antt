-- ===== src/Gateway/Timers/Deadlines.antt =====
-- What a stored deadline gives later (timers.py).
use session_replica_ielt.Prelude.{ℕ, ◌+◌, ◌≤◌, ◌≡◌, ◌≢◌, ◌⊎◌, ==_refl, true, none, some, arith}
use session_replica_ielt.Gateway.Timers.{
  TimerName, Redis, same_name, set_deadline, get_deadline, clear_deadline,
}

same_name_refl : (n : TimerName) → same_name n n ≡ true
unfolding same_name
same_name_refl n = ground arith

same_name-eq : (n m : TimerName) → same_name n m ≡ true → n ≡ m
unfolding same_name
same_name-eq n m h = ground arith

-- A deadline that was set can be read until 29 seconds past it, whatever its duration.
pub get-set_deadline :
    (now later s : ℕ) (n : TimerName) (duration : ℕ) (redis : Redis)
    → later ≤ now + duration + 29000
    → get_deadline later s n (set_deadline now s n duration redis).1 ≡ some (now + duration)
unfolding get_deadline set_deadline
get-set_deadline now later s n duration redis h = ground (arith, same_name_refl n, ==_refl s)

-- From 30 seconds past it on, it reads as if it had never been set.
pub get-set_deadline_lapsed :
    (now later s : ℕ) (n : TimerName) (duration : ℕ) (redis : Redis)
    → now + duration + 30000 ≤ later
    → get_deadline later s n (set_deadline now s n duration redis).1 ≡ none
unfolding get_deadline set_deadline
get-set_deadline_lapsed now later s n duration redis h = ground (arith, same_name_refl n, ==_refl s)

-- Setting or clearing a deadline leaves the other names and the other sessions alone.
pub get-deadline_others :
    (now later s t : ℕ) (n m : TimerName) (duration : ℕ) (redis : Redis)
    → (t ≢ s) ⊎ (m ≢ n)
    → (get_deadline later t m (set_deadline now s n duration redis).1
        ≡ get_deadline later t m redis)
      × (get_deadline later t m (clear_deadline s n redis) ≡ get_deadline later t m redis)
unfolding get_deadline set_deadline clear_deadline
get-deadline_others now later s t n m duration redis h = ground (arith, same_name-eq m n)

-- A cleared deadline is gone.
pub get-clear_deadline :
    (later s : ℕ) (n : TimerName) (redis : Redis)
    → get_deadline later s n (clear_deadline s n redis) ≡ none
unfolding get_deadline clear_deadline
get-clear_deadline later s n redis = ground (arith, same_name_refl n, ==_refl s)
