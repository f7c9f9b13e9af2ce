-- ===== src/Connection/Connect.antt =====
-- internal/harness/connection.go: one run of the connect flow, the reconnect loop, disconnecting.
use modeltap.Prelude.{
  ℕ, zero, suc, ◌+◌, String, Bool, true, false, not, ◌&&◌, List, [], ◌∷◌, ◌++◌, Option, some, none,
  leb, ◌==◌, if◌then◌else◌,
}
use modeltap.Prelude.Int.{pos, negsuc}
use modeltap.Prelude.Text.{◌<>◌, str_eq, decimal}
use modeltap.Connection.Types.{
  ConnState, ConnectionConfig, ConnectionManager, RegisterError, DialResult, Attempt,
}
use modeltap.Connection.Transition.{transition, fail}

-- What `ConnectSync` gives back: its error, and the manager.
abbrev pub Outcome : Type 0
Outcome = Option String × ConnectionManager

abbrev or_else : Option ℕ → Option ℕ → Option ℕ
or_else none d = d
or_else (some c) d = some c

abbrev as_list : Option ℕ → List ℕ
as_list none = []
as_list (some c) = c ∷ []

-- Nothing changes while a heartbeat runs.
abbrev pub start_heartbeat : ConnectionManager → ConnectionManager
start_heartbeat m = record m { heartbeat = or_else m.heartbeat m.client }

abbrev pub stop_heartbeat : ConnectionManager → ConnectionManager
stop_heartbeat m = record m { heartbeat = none }

-- The goroutine of an earlier watcher keeps waiting; only the handle of the latest is kept.
-- Without a client nothing changes.
abbrev pub start_disconnect_watcher : ConnectionManager → ConnectionManager
start_disconnect_watcher m = record m {
  watchers = as_list m.client ++ m.watchers;
  loop_cancel = or_else m.client m.loop_cancel;
}

abbrev pub needs_start : Attempt → ConnectionManager → Bool
needs_start a m = not (str_eq m.config.socket_path "") && not a.answers

-- `Dial` itself refuses a configuration with no address.
abbrev pub dial : Attempt → ConnectionConfig → DialResult
dial a c =
    if str_eq c.socket_path "" && str_eq c.tls_address ""
    then DialResult.dial_error "dial: SocketPath or TLSAddress required"
    else a.dial

-- -32002 is `CodeVersionMismatch`.
abbrev pub is_version_mismatch : RegisterError → Bool
is_version_mismatch (RegisterError.rpc (pos n) message) = false
is_version_mismatch (RegisterError.rpc (negsuc n) message) = leb 32001 n && leb n 32001
is_version_mismatch (RegisterError.transport message) = false

abbrev error_text : RegisterError → String
error_text (RegisterError.rpc code message) = message
error_text (RegisterError.transport message) = message

abbrev pub register_failure : RegisterError → String
register_failure e =
    (if is_version_mismatch e then "version mismatch: " else "register: ") <> error_text e

unfoldable pub become_ready : ConnectionManager → ConnectionManager
unfolding transition
become_ready m = start_disconnect_watcher (
    start_heartbeat
      (record (transition ConnState.ready "" m) { reconnect_attempt = 0; missed_pongs = 0 }))

-- By the error of the registration.
unfoldable pub after_register : Option RegisterError → ConnectionManager → Outcome
unfolding become_ready transition fail
after_register none m = (none, become_ready m)
after_register (some e) m = fail (register_failure e) m

-- By whether the connection is not by TLS.
abbrev pub authenticate_unless : Bool → ConnectionManager → ConnectionManager
authenticate_unless true m = m
authenticate_unless false m = transition ConnState.authenticating "tls handshake done" m

abbrev pub authenticate : ConnectionManager → ConnectionManager
authenticate m = authenticate_unless (str_eq m.config.tls_address "") m

-- From the client on.
unfoldable pub register_client : Attempt → ConnectionManager → Outcome
unfolding after_register become_ready transition
register_client a m =
    let m₁ = transition ConnState.registering "registering capabilities" (authenticate m) in
    if m.config.registers then after_register a.register_error m₁ else (none, become_ready m₁)

unfoldable pub after_dial : Attempt → DialResult → ConnectionManager → Outcome
unfolding register_client fail
after_dial a (DialResult.dial_error e) m = fail ("dial: " <> e) m
after_dial a (DialResult.dialled c) m = register_client a (record m { client = some c })

unfoldable pub dial_server : Attempt → ConnectionManager → Outcome
unfolding after_dial transition
dial_server a m = after_dial a (dial a m.config) (transition ConnState.connecting "dialing" m)

unfoldable pub after_start : Attempt → Option String → ConnectionManager → Outcome
unfolding dial_server fail
after_start a none m = dial_server a m
after_start a (some e) m = fail ("auto-start: " <> e) m

unfoldable pub start_server : Attempt → ConnectionManager → Outcome
unfolding after_start transition fail
start_server a m =
    if m.config.auto_start
    then after_start a a.start_error
        (transition ConnState.starting "auto-starting modeltap server" m)
    else fail "server not running and AutoStart disabled" m

unfoldable pub connect_sync : Attempt → ConnectionManager → Outcome
unfolding start_server dial_server transition
connect_sync a m =
    let m₁ = transition ConnState.discovering "checking server" m in
    if m.closed
    then (some "connection manager closed", m)
    else if needs_start a m
    then start_server a m₁
    else dial_server a m₁

-- A client that is closed ends: its watcher, if it has one, goes on in `client_done`.
abbrev pub close_client : ConnectionManager → ConnectionManager
close_client m = record m { client = none; closed_clients = m.closed_clients ++ as_list m.client }

-- One watcher of a client is gone.
abbrev pub forget : ℕ → List ℕ → List ℕ
forget c [] = []
forget c (w ∷ ws) = if w == c then ws else w ∷ forget c ws

-- `loopCancel` stops the latest watcher.
abbrev forget_some : Option ℕ → List ℕ → List ℕ
forget_some none ws = ws
forget_some (some c) ws = forget c ws

abbrev pub cancel_loop : ConnectionManager → ConnectionManager
cancel_loop m = record m { watchers = forget_some m.loop_cancel m.watchers }

unfoldable pub disconnect : ConnectionManager → ConnectionManager
disconnect m =
    if m.closed then m else close_client (cancel_loop (stop_heartbeat (record m { closed = true })))

unfoldable pub reconnect : Attempt → ConnectionManager → Outcome
unfolding connect_sync
reconnect a m = connect_sync a (record (close_client (stop_heartbeat m)) { reconnect_attempt = 0 })

-- The wait before an attempt: its context is cancelled, or it elapses and the attempt runs, before
-- which `Disconnect` may have been called.
pub data Wait : Type 0 where
  cancelled : Wait
  elapsed : (disconnected : Bool) → Attempt → Wait

abbrev pub attempt_after : Bool → Attempt → ConnectionManager → Outcome
attempt_after disconnected a m = connect_sync a (if disconnected then disconnect m else m)

-- `rec` are the rounds that follow.
abbrev pub next_round : (ConnectionManager → ConnectionManager) → Outcome → ConnectionManager
next_round rec (none, m) = m
next_round rec (some e, m) = rec (record m { reconnect_attempt = m.reconnect_attempt + 1 })

unfoldable pub after_wait :
    (ConnectionManager → ConnectionManager) → Wait → ConnectionManager → ConnectionManager
unfolding connect_sync disconnect
after_wait rec cancelled m = m
after_wait rec (elapsed disconnected a) m = next_round rec (attempt_after disconnected a m)

-- The text of the delay is given.
abbrev pub attempt_text : (ℕ → String) → ConnectionManager → String
attempt_text delay m =
    "attempt "
    <> (decimal m.reconnect_attempt
        <> ("/"
            <> (decimal m.config.reconnect_max_retries <> (" in " <> delay m.reconnect_attempt))))

abbrev pub announce : (ℕ → String) → ConnectionManager → ConnectionManager
announce delay m = transition ConnState.reconnecting (attempt_text delay m) m

-- `rounds` are the attempts left. The last transition stands after the loop.
unfoldable pub reconnect_rounds :
    ℕ → (ℕ → Wait) → (ℕ → String) → ConnectionManager → ConnectionManager
unfolding after_wait transition
reconnect_rounds zero wait delay m = transition ConnState.failed "reconnection retries exhausted" m
reconnect_rounds (suc rounds) wait delay m =
    if m.closed
    then m
    else after_wait (reconnect_rounds rounds wait delay) (wait m.reconnect_attempt)
        (announce delay m)

unfoldable pub reconnect_loop : (ℕ → Wait) → (ℕ → String) → ConnectionManager → ConnectionManager
unfolding reconnect_rounds
reconnect_loop wait delay m =
    reconnect_rounds m.config.reconnect_max_retries wait delay (record m { reconnect_attempt = 1 })
