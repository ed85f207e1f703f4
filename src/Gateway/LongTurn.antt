-- ===== src/Gateway/LongTurn.antt =====
-- The long turn's watchdog of apps/api-gateway/app/services/timers.py, which also acts on the
-- bridge.
pub mod Cutoff
use session_replica_ielt.Prelude.{
  ℕ, ◌+◌, Bool, true, false, not, ◌&&◌, ◌||◌, Option, none, some, List, [], ◌∷◌, leb, if◌then◌else◌,
}
use session_replica_ielt.Fsm
use session_replica_ielt.Fsm.{ExamPhase}
use session_replica_ielt.Gateway.Exceptions.{Result, ok, err}
use session_replica_ielt.Gateway.Bridge.{
  Bridge, Directive, part2_warn, part2_hard_stop, inject_directive, force_mute_input,
}
use session_replica_ielt.Gateway.Timers.{Poll, Redis, part2_long_turn, get_deadline}

abbrev pub is_part2_long_turn : ExamPhase → Bool
is_part2_long_turn Fsm.part2_long_turn = true
is_part2_long_turn _ = false

-- What a round of the loop decides.
pub data Round : Type 0 where
  left : Round
  cut_off go_on : (warn : Bool) → Round

-- `remaining` is `deadline - now`, which may be negative, as `hard_cutoff - warn_at` may: the tests
-- `remaining <= hard_cutoff - warn_at` and `remaining <= 0` are written with sums.
unfoldable pub poll_long_turn : ℕ → ℕ → ℕ → Bool → Poll → Round
poll_long_turn deadline warn_at hard_cutoff warned p =
    let warn = leb (deadline + warn_at) (hard_cutoff + p.now) && not warned in
    if is_part2_long_turn p.phase
    then (if leb deadline p.now then cut_off warn else go_on warn)
    else left

-- `if ... and not warned: await bridge.inject_directive(part2_warn)`
unfoldable pub inject_warning : Bool → Bridge → Result (Unit {0}) × Bridge
inject_warning true b = inject_directive part2_warn b
inject_warning false b = (ok tt, b)

-- The hard cutoff: mute, then the hard stop.
abbrev pub after_hard_stop : Result (Unit {0}) × Bridge → Result Bool × Bridge
after_hard_stop (ok _, b) = (ok true, b)
after_hard_stop (err e, b) = (err e, b)

abbrev pub hard_stop : Result (Unit {0}) × Bridge → Result Bool × Bridge
hard_stop (ok _, b) = after_hard_stop (inject_directive part2_hard_stop (force_mute_input b))
hard_stop (err e, b) = (err e, b)

abbrev pub resume :
    (Bridge → Option (Result Bool × Bridge))
    → Result (Unit {0}) × Bridge
    → Option (Result Bool × Bridge)
resume more (ok _, b) = more b
resume more (err e, b) = some (err e, b)

-- The rounds of the `while True` loop; `none` while it still runs after the given ones.
unfoldable pub cutoff_from : ℕ → ℕ → ℕ → Bool → List Poll → Bridge → Option (Result Bool × Bridge)
unfolding inject_warning
cutoff_from deadline warn_at hard_cutoff warned [] b = none
cutoff_from deadline warn_at hard_cutoff warned (p ∷ ps) b =
    elim (poll_long_turn deadline warn_at hard_cutoff warned p) [
      | left ↦ some (ok false, b)
      | cut_off warn ↦ some (hard_stop (inject_warning warn b))
      | go_on warn ↦
          resume (cutoff_from deadline warn_at hard_cutoff (warned || warn) ps)
            (inject_warning warn b)
    ]

-- `wait_for_long_turn_cutoff`; `start` is when it reads the deadline.
unfoldable pub wait_for_long_turn_cutoff :
    ℕ → ℕ → ℕ → ℕ → Redis → List Poll → Bridge → Option (Result Bool × Bridge)
unfolding cutoff_from
wait_for_long_turn_cutoff start session_id warn_at hard_cutoff redis polls b =
    elim (get_deadline start session_id part2_long_turn redis) [
      | none ↦ some (ok false, b)
      | some deadline ↦ cutoff_from deadline warn_at hard_cutoff false polls b
    ]
