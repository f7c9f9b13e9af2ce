-- ===== src/Connection/Transition.antt =====
-- internal/harness/connection.go: the graph of the states, and a change of state.
use modeltap.Prelude.{
  ℕ, String, Bool, false, ◌&&◌, ◌||◌, List, [], ◌∷◌, ◌++◌, Option, some, none, ◌==◌, any,
  if◌then◌else◌,
}
use modeltap.Connection.Types.{ConnState, ConnStateInfo, ConnectionConfig, ConnectionManager}

-- To compare states.
abbrev rank : ConnState → ℕ
rank ConnState.discovering = 0
rank ConnState.starting = 1
rank ConnState.connecting = 2
rank ConnState.authenticating = 3
rank ConnState.registering = 4
rank ConnState.ready = 5
rank ConnState.degraded = 6
rank ConnState.reconnecting = 7
rank ConnState.failed = 8

abbrev pub is_same : ConnState → ConnState → Bool
is_same a b = rank a == rank b

-- A state that the map lacks has no entry: `none`.
abbrev pub valid_harness_transitions : ConnState → Option (List ConnState)
valid_harness_transitions ConnState.discovering =
    some (ConnState.starting ∷ ConnState.connecting ∷ ConnState.failed ∷ [])
valid_harness_transitions ConnState.starting = some (ConnState.connecting ∷ ConnState.failed ∷ [])
valid_harness_transitions ConnState.connecting = some (
    ConnState.authenticating ∷ ConnState.registering ∷ ConnState.failed ∷ ConnState.reconnecting
    ∷ [])
valid_harness_transitions ConnState.authenticating =
    some (ConnState.registering ∷ ConnState.failed ∷ ConnState.reconnecting ∷ [])
valid_harness_transitions ConnState.registering =
    some (ConnState.ready ∷ ConnState.failed ∷ ConnState.reconnecting ∷ [])
valid_harness_transitions ConnState.ready =
    some (ConnState.degraded ∷ ConnState.reconnecting ∷ ConnState.failed ∷ [])
valid_harness_transitions ConnState.degraded =
    some (ConnState.ready ∷ ConnState.reconnecting ∷ ConnState.failed ∷ [])
valid_harness_transitions ConnState.reconnecting =
    some (ConnState.connecting ∷ ConnState.failed ∷ [])
valid_harness_transitions ConnState.failed = none

abbrev pub can_harness_transition : ConnState → ConnState → Bool
can_harness_transition from to = elim (valid_harness_transitions from) [
  | none ↦ false
  | some allowed ↦ any (λ a. is_same a to) allowed
]

abbrev pub info : ConnState → String → ConnectionManager → ConnStateInfo
info to detail m = record {
  state = to;
  detail = detail;
  attempt = m.reconnect_attempt;
  max_retries = m.config.reconnect_max_retries;
}

-- A change to the same state is announced again; one that the graph lacks is ignored.
abbrev pub moves : ConnState → ConnState → Bool
moves from to = can_harness_transition from to || is_same from to

unfoldable pub transition : ConnState → String → ConnectionManager → ConnectionManager
transition to detail m = record m {
  state = if moves m.state to then to else m.state;
  sent = if moves m.state to && m.has_sender then m.sent ++ info to detail m ∷ [] else m.sent;
}

-- `fail`: the error that it returns, and the manager.
unfoldable pub fail : String → ConnectionManager → Option String × ConnectionManager
unfolding transition
fail detail m = (some detail, transition ConnState.failed detail m)

-- `NewConnectionManager`, of a configuration whose defaults are filled in.
abbrev pub new_connection_manager : ConnectionConfig → Bool → ConnectionManager
new_connection_manager config sender = record {
  config = config;
  has_sender = sender;
  state = ConnState.discovering;
  client = none;
  missed_pongs = 0;
  reconnect_attempt = 0;
  heartbeat = none;
  watchers = [];
  loop_cancel = none;
  closed = false;
  sent = [];
  closed_clients = [];
}
