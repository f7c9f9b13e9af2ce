-- ===== src/Connection/Pulse.antt =====
-- The missed answers of a heartbeat (internal/harness/connection.go).
use modeltap.Prelude.{
  ◌+◌, ◌≤◌, ◌<◌, ◌≡◌, refl, sym, Bool, Bool-cases, ltb, true, false, ◌⊎◌, inl, inr, none, arith,
  if◌then◌else◌,
}
use mathlib.Core.Path.{subst}
use modeltap.Prelude.Text.{◌<>◌, decimal}
use modeltap.Connection.Types.{ConnState, ConnectionManager}
use modeltap.Connection.Transition.{transition}
use modeltap.Connection.Connect.{stop_heartbeat}
use modeltap.Connection.Heartbeat.{send_heartbeat, count_pong}

-- Ready up to two missed answers, degraded at three and four.
pub data IsPulse (m : ConnectionManager) : Type 0 where
  steady : m.state ≡ ConnState.ready → m.missed_pongs < 3 → IsPulse m
  slow : m.state ≡ ConnState.degraded → 3 ≤ m.missed_pongs → m.missed_pongs < 5 → IsPulse m

-- The heartbeat goes on.
pub record GoesOn (answered : Bool) (m m' : ConnectionManager) : Type 0 where
  pub pulse : IsPulse m'
  pub counted : m'.missed_pongs ≡ (if answered then 0 else m.missed_pongs + 1)
  pub still_pinged : m'.heartbeat ≡ m.heartbeat

-- The connection is given up.
pub record GivesUp (answered : Bool) (m m' : ConnectionManager) : Type 0 where
  pub unanswered : answered ≡ false
  pub fifth : m'.missed_pongs ≡ 5
  pub reconnecting : m'.state ≡ ConnState.reconnecting
  pub stopped : m'.heartbeat ≡ none

abbrev pub PingResult : Bool → ConnectionManager → Bool × ConnectionManager → Type 0
PingResult answered m (false, m') = GoesOn answered m m'
PingResult answered m (true, m') = GivesUp answered m m'

module _ (m : ConnectionManager) where
  -- The cases of a ping: a count within bounds, one that degrades, one that recovers, the last.
  counts :
      (answered : Bool)
      → (if answered then 0 else m.missed_pongs + 1) < 5
      → (m.state ≡ ConnState.ready) × ((if answered then 0 else m.missed_pongs + 1) < 3)
        ⊎ (m.state ≡ ConnState.degraded) × (3 ≤ (if answered then 0 else m.missed_pongs + 1))
      → send_heartbeat answered m ≡ (false, count_pong answered m)
  unfolding send_heartbeat
  counts answered h (inl (e, l)) = ground arith
  counts answered h (inr (e, l)) = ground arith

  degrades :
      m.state ≡ ConnState.ready
      → m.missed_pongs ≡ 2
      → send_heartbeat false m ≡ (
        false,
        transition ConnState.degraded
            ("missed " <> (decimal (m.missed_pongs + 1) <> " heartbeats"))
            (count_pong false m),
      )
  unfolding send_heartbeat
  degrades e l = ground arith

  recovers :
      m.state ≡ ConnState.degraded
      → send_heartbeat true m
        ≡ (false, transition ConnState.ready "heartbeat recovered" (count_pong true m))
  unfolding send_heartbeat
  recovers e = ground arith

  gives_up :
      m.state ≡ ConnState.degraded
      → m.missed_pongs ≡ 4
      → send_heartbeat false m ≡ (
        true,
        stop_heartbeat (
            transition ConnState.reconnecting
              ("heartbeat lost (" <> (decimal (m.missed_pongs + 1) <> " missed)"))
              (count_pong false m)),
      )
  unfolding send_heartbeat
  gives_up e l = ground arith

-- A manager is ready with up to two missed answers in a row and degraded at three and four. A ping
-- keeps this: an answer brings it back to ready, a missed one counts, and the fifth in a row,
-- and nothing else, stops the heartbeat and starts to reconnect.
pub send_heartbeat-IsPulse :
    (answered : Bool) (m : ConnectionManager)
    → IsPulse m
    → PingResult answered m (send_heartbeat answered m)
unfolding transition
send_heartbeat-IsPulse true m (steady e l) =
    subst (PingResult true m) (sym (counts m true (omega arith) (inl (e, omega arith))))
      (record { pulse = steady e (omega arith); counted = refl; still_pinged = refl })
send_heartbeat-IsPulse true m (slow e l u) =
    subst (PingResult true m) (sym (recovers m e))
      (record { pulse = steady (ground arith) (omega arith); counted = refl; still_pinged = refl })
send_heartbeat-IsPulse false m (steady e l) = elim (Bool-cases (ltb m.missed_pongs 2)) [
  | inl small ↦
      subst (PingResult false m) (sym (counts m false (omega arith) (inl (e, ground arith))))
        (record { pulse = steady e (ground arith); counted = refl; still_pinged = refl })
  | inr big ↦ subst (PingResult false m) (sym (degrades m e (ground arith))) (record {
    pulse = slow (ground arith) (ground arith) (omega arith);
    counted = refl;
    still_pinged = refl;
  })
]
send_heartbeat-IsPulse false m (slow e l u) = elim (Bool-cases (ltb m.missed_pongs 4)) [
  | inl small ↦
      subst (PingResult false m) (sym (counts m false (ground arith) (inr (e, omega arith))))
        (record {
          pulse = slow e (omega arith) (ground arith);
          counted = refl;
          still_pinged = refl;
        })
  | inr big ↦ subst (PingResult false m) (sym (gives_up m e (ground arith))) (record {
    unanswered = refl;
    fifth = ground arith;
    reconnecting = ground arith;
    stopped = refl;
  })
]
