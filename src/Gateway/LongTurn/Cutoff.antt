-- ===== src/Gateway/LongTurn/Cutoff.antt =====
-- What the long turn's watchdog (wait_for_long_turn_cutoff in timers.py) has sent when it ends.
use session_replica_ielt.Prelude.{
  ℕ, ◌+◌, ◌≤◌, ◌<◌, ◌≡◌, refl, Bool, true, false, some, List, [], ◌∷◌, ◌++◌, All, arith,
  append_assoc, append-nil, Bool-cases, leb, inl, inr, ◌⊎◌, not, ◌&&◌, any,
}
use session_replica_ielt.Gateway.Exceptions.{ok}
use session_replica_ielt.Gateway.Bridge.{
  Bridge, WireMessage, client_content, part2_warn, part2_hard_stop, inject_directive,
  force_mute_input,
}
use session_replica_ielt.Gateway.Timers.{Poll}
use session_replica_ielt.Gateway.LongTurn.{is_part2_long_turn, poll_long_turn, cutoff_from}

-- The candidate still speaks, and time is left.
abbrev pub Speaking : ℕ → Poll → Type 0
Speaking deadline p = (p.now < deadline) × (is_part2_long_turn p.phase ≡ true)

-- At this round the time of the warning has come.
abbrev pub is_due : ℕ → ℕ → ℕ → Poll → Bool
is_due deadline warn_at hard_cutoff p = leb (deadline + warn_at) (hard_cutoff + p.now)

-- The warning, if one of these rounds sends it.
abbrev pub warning : Bool → List WireMessage
warning true = client_content part2_warn ∷ []
warning false = []

-- If the session stays in the long turn until a round at or past the deadline and the bridge is
-- connected, the watchdog reports the cutoff with the input muted; since it began it has sent the
-- warning, unless it had before or its time came in none of the rounds, and then the hard stop,
-- each once and nothing else.
pub cutoff_from-reached :
    (deadline warn_at hard_cutoff : ℕ) (warned : Bool) (ps : List Poll) (p : Poll) (qs : List Poll)
    (b : Bridge)
    → b.connected ≡ true
    → All (Speaking deadline) ps
    → deadline ≤ p.now
    → is_part2_long_turn p.phase ≡ true
    → cutoff_from deadline warn_at hard_cutoff warned (ps ++ p ∷ qs) b
      ≡ some (
        ok true,
        record b {
          input_muted = true;
          sent =
              b.sent
              ++ (warning (not warned && any (is_due deadline warn_at hard_cutoff) (ps ++ p ∷ []))
                  ++ client_content part2_hard_stop ∷ []);
        },
      )
unfolding cutoff_from poll_long_turn inject_directive force_mute_input
cutoff_from-reached d w c false [] p qs b on before late there = ground (
  arith,
  append_assoc b.sent (client_content part2_warn ∷ []) (client_content part2_hard_stop ∷ []),
)
cutoff_from-reached d w c true [] p qs b on before late there = ground arith
cutoff_from-reached d w c true (x ∷ ps) p qs b on before late there =
    ground (arith, cutoff_from-reached d w c true ps p qs b on before.1 late there)
cutoff_from-reached d w c false (x ∷ ps) p qs b on before late there =
    elim (Bool-cases (leb (d + w) (c + x.now))) [
      | inl warn ↦ ground (
        arith,
        append_assoc b.sent (client_content part2_warn ∷ []) (client_content part2_hard_stop ∷ []),
        cutoff_from-reached d w c true ps p qs
            (record b { sent = b.sent ++ client_content part2_warn ∷ [] }) on before.1 late there,
      )
      | inr quiet ↦ ground (arith, cutoff_from-reached d w c false ps p qs b on before.1 late there)
    ]

-- A warning that is due no later than the cutoff is not left out.
is_due-reached :
    (deadline warn_at hard_cutoff : ℕ) (ps : List Poll) (p : Poll)
    → warn_at ≤ hard_cutoff
    → deadline ≤ p.now
    → any (is_due deadline warn_at hard_cutoff) (ps ++ p ∷ []) ≡ true
is_due-reached d w c [] p le late = ground arith
is_due-reached d w c (x ∷ ps) p le late = ground (arith, is_due-reached d w c ps p le late)

-- If the session leaves the long turn first, the watchdog reports no cutoff, leaves the mute as it
-- was and has sent the warning at most.
pub cutoff_from-left :
    (deadline warn_at hard_cutoff : ℕ) (warned : Bool) (ps : List Poll) (p : Poll) (qs : List Poll)
    (b : Bridge)
    → b.connected ≡ true
    → All (Speaking deadline) ps
    → is_part2_long_turn p.phase ≡ false
    → (warn : List WireMessage) × ((warn ≡ [])
        ⊎ ((warned ≡ false) × (warn ≡ client_content part2_warn ∷ [])))
      × (cutoff_from deadline warn_at hard_cutoff warned (ps ++ p ∷ qs) b
          ≡ some (ok false, record b { sent = b.sent ++ warn }))
unfolding cutoff_from poll_long_turn inject_directive
cutoff_from-left d w c warned [] p qs b on before gone =
    ([], inl refl, ground (arith, append-nil b.sent))
cutoff_from-left d w c true (x ∷ ps) p qs b on before gone =
    let (warn, few, e) = cutoff_from-left d w c true ps p qs b on before.1 gone in
    (warn, few, ground arith)
cutoff_from-left d w c false (x ∷ ps) p qs b on before gone =
    elim (Bool-cases (leb (d + w) (c + x.now))) [
      | inl warn ↦
          let warned_bridge : Bridge = record b {
            sent = b.sent ++ client_content part2_warn ∷ [];
          } in
          let (more, few, e) = cutoff_from-left d w c true ps p qs warned_bridge on before.1 gone in
          (
            client_content part2_warn ∷ [],
            inr (refl, refl),
            ground (arith, append-nil (b.sent ++ client_content part2_warn ∷ [])),
          )
      | inr quiet ↦
          let (warn, few, e) = cutoff_from-left d w c false ps p qs b on before.1 gone in
          (warn, few, ground arith)
    ]
