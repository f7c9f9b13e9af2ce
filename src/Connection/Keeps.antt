-- ===== src/Connection/Keeps.antt =====
-- What every change of state keeps, the whole manager keeps.
use modeltap.Prelude.{
  ℕ, zero, suc, ◌+◌, String, Bool, true, false, List, [], ◌∷◌, Option, none, some, if◌then◌else◌,
  leb, any, ◌==◌,
}
use modeltap.Prelude.Text.{str_eq}
use modeltap.Connection.Types.{
  ConnState, ConnStateInfo, ConnectionManager, Attempt, DialResult, RegisterError,
}
use modeltap.Connection.Transition.{is_same, transition, fail}
use modeltap.Connection.Connect.{
  Outcome, needs_start, authenticate, authenticate_unless, after_register, after_dial, after_start,
  become_ready, register_client, dial_server, start_server, connect_sync, close_client, disconnect,
  reconnect, forget, stop_heartbeat, Wait, cancelled, elapsed, reconnect_rounds, reconnect_loop,
  next_round, after_wait, announce, attempt_text, dial,
}
use modeltap.Connection.Heartbeat.{
  count_pong, after_ping, runs, send_heartbeat, client_done, ConnectionEvent, connected,
  reconnected, disconnected, pinged, ended, step, run,
}

module _ (Q : ConnState → List ConnStateInfo → Bool → Type 0) where
  abbrev pub Holds : ConnectionManager → Type 0
  Holds m = Q m.state m.sent m.has_sender

  if-Holds :
      (b : Bool) (m m' : ConnectionManager) → Holds m → Holds m' → Holds (if b then m else m')
  if-Holds true m m' h h' = h
  if-Holds false m m' h h' = h'

  if-after :
      {A : Type 0} (b : Bool) (o o' : A × ConnectionManager)
      → Holds o.1
      → Holds o'.1
      → Holds (if b then o else o').1
  if-after true o o' h h' = h
  if-after false o o' h h' = h'

  disconnect-Holds : (m : ConnectionManager) → Holds m → Holds (disconnect m)
  unfolding disconnect
  disconnect-Holds m h = if-Holds m.closed m _ h h

  module _
      (keep : (to : ConnState) (detail : String) (m : ConnectionManager)
        → Holds m
        → Holds (transition to detail m)) where
    become_ready-Holds : (m : ConnectionManager) → Holds m → Holds (become_ready m)
    unfolding become_ready
    become_ready-Holds m h = keep ConnState.ready "" m h

    fail-Holds : (e : String) (m : ConnectionManager) → Holds m → Holds (fail e m).1
    unfolding fail
    fail-Holds e m h = keep ConnState.failed e m h

    after_register-Holds :
        (e : Option RegisterError) (m : ConnectionManager) → Holds m → Holds (after_register e m).1
    unfolding after_register
    after_register-Holds none m h = become_ready-Holds m h
    after_register-Holds (some e) m h = fail-Holds _ m h

    authenticate_unless-Holds :
        (b : Bool) (m : ConnectionManager) → Holds m → Holds (authenticate_unless b m)
    authenticate_unless-Holds true m h = h
    authenticate_unless-Holds false m h = keep ConnState.authenticating "tls handshake done" m h

    register_client-Holds :
        (a : Attempt) (m : ConnectionManager) → Holds m → Holds (register_client a m).1
    unfolding register_client
    register_client-Holds a m h =
        let m₁ = transition ConnState.registering "registering capabilities" (authenticate m) in
        let h₁ =
          keep ConnState.registering "registering capabilities" (authenticate m)
            (authenticate_unless-Holds (str_eq m.config.tls_address "") m h) in
        if-after m.config.registers _ _ (after_register-Holds a.register_error m₁ h₁)
          (become_ready-Holds m₁ h₁)

    after_dial-Holds :
        (a : Attempt) (d : DialResult) (m : ConnectionManager)
        → Holds m
        → Holds (after_dial a d m).1
    unfolding after_dial
    after_dial-Holds a (DialResult.dial_error e) m h = fail-Holds _ m h
    after_dial-Holds a (DialResult.dialled c) m h =
        register_client-Holds a (record m { client = some c }) h

    dial_server-Holds : (a : Attempt) (m : ConnectionManager) → Holds m → Holds (dial_server a m).1
    unfolding dial_server
    dial_server-Holds a m h =
        after_dial-Holds a (dial a m.config) (transition ConnState.connecting "dialing" m)
          (keep ConnState.connecting "dialing" m h)

    after_start-Holds :
        (a : Attempt) (e : Option String) (m : ConnectionManager)
        → Holds m
        → Holds (after_start a e m).1
    unfolding after_start
    after_start-Holds a none m h = dial_server-Holds a m h
    after_start-Holds a (some e) m h = fail-Holds _ m h

    start_server-Holds :
        (a : Attempt) (m : ConnectionManager) → Holds m → Holds (start_server a m).1
    unfolding start_server
    start_server-Holds a m h =
        if-after m.config.auto_start _ _
          (after_start-Holds a a.start_error
            (transition ConnState.starting "auto-starting modeltap server" m)
            (keep ConnState.starting "auto-starting modeltap server" m h))
          (fail-Holds _ m h)

    connect_sync-Holds :
        (a : Attempt) (m : ConnectionManager) → Holds m → Holds (connect_sync a m).1
    unfolding connect_sync
    connect_sync-Holds a m h =
        let m₁ = transition ConnState.discovering "checking server" m in
        let h₁ = keep ConnState.discovering "checking server" m h in
        if-after m.closed _ _ h
          (if-after (needs_start a m) _ _ (start_server-Holds a m₁ h₁) (dial_server-Holds a m₁ h₁))

    reconnect-Holds : (a : Attempt) (m : ConnectionManager) → Holds m → Holds (reconnect a m).1
    unfolding reconnect
    reconnect-Holds a m h =
        connect_sync-Holds a (record (close_client (stop_heartbeat m)) { reconnect_attempt = 0 }) h

    next_round-Holds :
        (rec : ConnectionManager → ConnectionManager)
        → ((m : ConnectionManager) → Holds m → Holds (rec m))
        → (o : Outcome) → Holds o.1
        → Holds (next_round rec o)
    next_round-Holds rec r (none, m) h = h
    next_round-Holds rec r (some e, m) h =
        r (record m { reconnect_attempt = m.reconnect_attempt + 1 }) h

    after_wait-Holds :
        (rec : ConnectionManager → ConnectionManager)
        → ((m : ConnectionManager) → Holds m → Holds (rec m))
        → (w : Wait) (m : ConnectionManager) → Holds m
        → Holds (after_wait rec w m)
    unfolding after_wait
    after_wait-Holds rec r cancelled m h = h
    after_wait-Holds rec r (elapsed false a) m h =
        next_round-Holds rec r (connect_sync a m) (connect_sync-Holds a m h)
    after_wait-Holds rec r (elapsed true a) m h =
        next_round-Holds rec r (connect_sync a (disconnect m))
          (connect_sync-Holds a (disconnect m) (disconnect-Holds m h))

    reconnect_rounds-Holds :
        (rounds : ℕ) (wait : ℕ → Wait) (delay : ℕ → String) (m : ConnectionManager)
        → Holds m
        → Holds (reconnect_rounds rounds wait delay m)
    unfolding reconnect_rounds
    reconnect_rounds-Holds zero wait delay m h =
        keep ConnState.failed "reconnection retries exhausted" m h
    reconnect_rounds-Holds (suc rounds) wait delay m h = if-Holds m.closed m _ h (
        after_wait-Holds (reconnect_rounds rounds wait delay)
          (reconnect_rounds-Holds rounds wait delay) (wait m.reconnect_attempt) (announce delay m)
          (keep ConnState.reconnecting (attempt_text delay m) m h))

    reconnect_loop-Holds :
        (wait : ℕ → Wait) (delay : ℕ → String) (m : ConnectionManager)
        → Holds m
        → Holds (reconnect_loop wait delay m)
    unfolding reconnect_loop
    reconnect_loop-Holds wait delay m h =
        reconnect_rounds-Holds m.config.reconnect_max_retries wait delay
          (record m { reconnect_attempt = 1 }) h

    send_heartbeat-Holds :
        (answered : Bool) (m : ConnectionManager) → Holds m → Holds (send_heartbeat answered m).1
    unfolding send_heartbeat
    send_heartbeat-Holds answered m h =
        let m₁ = count_pong answered m in
        if-after (leb 5 m₁.missed_pongs) _ _
          (if-after (is_same m.state ConnState.reconnecting) _ _ h
            (keep ConnState.reconnecting _ m₁ h))
          (if-after (leb 3 m₁.missed_pongs) _ _
            (if-after (is_same m.state ConnState.ready) _ _ (keep ConnState.degraded _ m₁ h) h)
            (if-after (is_same m.state ConnState.degraded) _ _
              (keep ConnState.ready "heartbeat recovered" m₁ h) h))

    client_done-Holds :
        (c : ℕ) (wait : ℕ → Wait) (delay : ℕ → String) (m : ConnectionManager)
        → Holds m
        → Holds (client_done c wait delay m)
    unfolding client_done
    client_done-Holds c wait delay m h =
        let m₁ = record m { watchers = forget c m.watchers } in
        let m₂ = transition ConnState.reconnecting "connection closed" (stop_heartbeat m₁) in
        if-Holds (any (λ w. w == c) m.watchers) _ m
          (if-Holds m.closed m₁ _ h (
            reconnect_loop-Holds wait delay m₂
              (keep ConnState.reconnecting "connection closed" (stop_heartbeat m₁) h)))
          h

    after_ping-Holds :
        (wait : ℕ → Wait) (delay : ℕ → String) (o : Bool × ConnectionManager)
        → Holds o.1
        → Holds (after_ping wait delay o)
    after_ping-Holds wait delay (false, m) h = h
    after_ping-Holds wait delay (true, m) h = reconnect_loop-Holds wait delay m h

    step-Holds : (e : ConnectionEvent) (m : ConnectionManager) → Holds m → Holds (step e m)
    unfolding step
    step-Holds (connected a) m h = connect_sync-Holds a m h
    step-Holds (reconnected a) m h = reconnect-Holds a m h
    step-Holds disconnected m h = disconnect-Holds m h
    step-Holds (pinged answered wait delay) m h =
        if-Holds (runs m.heartbeat) _ m
          (after_ping-Holds wait delay (send_heartbeat answered m)
            (send_heartbeat-Holds answered m h))
          h
    step-Holds (ended c wait delay) m h = client_done-Holds c wait delay m h

    pub run-Holds : (es : List ConnectionEvent) (m : ConnectionManager) → Holds m → Holds (run es m)
    unfolding run
    run-Holds [] m h = h
    run-Holds (e ∷ es) m h = run-Holds es (step e m) (step-Holds e m h)
