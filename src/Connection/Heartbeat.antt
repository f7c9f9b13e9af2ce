-- ===== src/Connection/Heartbeat.antt =====
-- internal/harness/connection.go: heartbeats, the end of a client, and the calls of the manager.
use modeltap.Prelude.{
  ℕ, ◌+◌, String, Bool, true, false, List, [], ◌∷◌, Option, some, none, leb, ◌==◌, any,
  if◌then◌else◌,
}
use modeltap.Prelude.Text.{◌<>◌, decimal}
use modeltap.Connection.Types.{ConnState, ConnectionManager, Attempt}
use modeltap.Connection.Transition.{is_same, transition}
use modeltap.Connection.Connect.{
  Wait, connect_sync, disconnect, reconnect, reconnect_loop, stop_heartbeat, forget,
}

abbrev pub missed_pongs_degraded : ℕ
missed_pongs_degraded = 3

abbrev pub missed_pongs_reconnecting : ℕ
missed_pongs_reconnecting = 5

-- The count after the answer of a ping.
abbrev pub count_pong : Bool → ConnectionManager → ConnectionManager
count_pong answered m = record m { missed_pongs = if answered then 0 else m.missed_pongs + 1 }

-- The result tells whether the reconnect loop is started.
unfoldable pub send_heartbeat : Bool → ConnectionManager → Bool × ConnectionManager
unfolding transition
send_heartbeat answered m =
    let m₁ = count_pong answered m in
    let missed = m₁.missed_pongs in
    if leb missed_pongs_reconnecting missed
    then if is_same m.state ConnState.reconnecting then (false, m₁) else (
      true,
      stop_heartbeat (
          transition ConnState.reconnecting ("heartbeat lost (" <> (decimal missed <> " missed)"))
            m₁),
    )
    else if leb missed_pongs_degraded missed
    then if is_same m.state ConnState.ready
      then (
        false,
        transition ConnState.degraded ("missed " <> (decimal missed <> " heartbeats")) m₁,
      )
      else (false, m₁)
    else if is_same m.state ConnState.degraded
    then (false, transition ConnState.ready "heartbeat recovered" m₁)
    else (false, m₁)

-- A client's `Done` channel is closed: a goroutine that waits for it goes on; without one, nothing.
unfoldable pub client_done : ℕ → (ℕ → Wait) → (ℕ → String) → ConnectionManager → ConnectionManager
unfolding transition reconnect_loop
client_done c wait delay m =
    let m₁ = record m { watchers = forget c m.watchers } in
    if any (λ w. w == c) m.watchers
    then if m.closed
      then m₁
      else reconnect_loop wait delay
          (transition ConnState.reconnecting "connection closed" (stop_heartbeat m₁))
    else m

-- What happens to a manager, one thing at a time. A ping is answered or not only while a heartbeat
-- runs; a reconnect loop that it starts runs at once.
pub data ConnectionEvent : Type 0 where
  connected : Attempt → ConnectionEvent
  reconnected : Attempt → ConnectionEvent
  disconnected : ConnectionEvent
  pinged : (answered : Bool) → (ℕ → Wait) → (ℕ → String) → ConnectionEvent
  ended : (client : ℕ) → (ℕ → Wait) → (ℕ → String) → ConnectionEvent

abbrev pub after_ping : (ℕ → Wait) → (ℕ → String) → Bool × ConnectionManager → ConnectionManager
after_ping wait delay (false, m) = m
after_ping wait delay (true, m) = reconnect_loop wait delay m

abbrev pub runs : Option ℕ → Bool
runs none = false
runs (some c) = true

unfoldable pub step : ConnectionEvent → ConnectionManager → ConnectionManager
unfolding connect_sync reconnect disconnect send_heartbeat client_done
step (connected a) m = (connect_sync a m).1
step (reconnected a) m = (reconnect a m).1
step disconnected m = disconnect m
step (pinged answered wait delay) m =
    if runs m.heartbeat then after_ping wait delay (send_heartbeat answered m) else m
step (ended c wait delay) m = client_done c wait delay m

unfoldable pub run : List ConnectionEvent → ConnectionManager → ConnectionManager
run [] m = m
run (e ∷ es) m = run es (step e m)
