-- ===== src/Connection/Tests.antt =====
-- A manager at concrete inputs.
use modeltap.Prelude.{
  ℕ, ◌-◌, ◌≡◌, refl, inr, true, false, List, [], ◌∷◌, none, some, arith, leb, if◌then◌else◌,
}
use modeltap.Prelude.Int.{pos, negsuc}
use modeltap.Connection.Types.{
  ConnState, ConnStateInfo, ConnectionConfig, ConnectionManager, Attempt, DialResult,
}
use modeltap.Connection.Transition.{new_connection_manager}
use modeltap.Connection.Backoff.{min, IsNear, backoff_delay, plain_delay, backoff_delay_bounds}
use modeltap.Connection.Connect.{connect_sync, Wait, elapsed}
use modeltap.Connection.Heartbeat.{
  ConnectionEvent, connected, reconnected, ended, send_heartbeat, step, run,
}
use modeltap.Connection.Traces.{Walk, run-Walk, run-failed}
use modeltap.Connection.Ready.{Connected, connect_sync-Connected}
use modeltap.Connection.Pulse.{PingResult, slow, send_heartbeat-IsPulse}

abbrev config : ConnectionConfig
config = record {
  socket_path = "/run/modeltap.sock";
  tls_address = "";
  auto_start = false;
  reconnect_initial = 1000000000;
  reconnect_max = 30000000000;
  reconnect_max_retries = 2;
  registers = true;
}

abbrev works : ℕ → Attempt
works c = record {
  answers = true;
  start_error = none;
  dial = DialResult.dialled c;
  register_error = none;
}

abbrev refused : Attempt
refused = record {
  answers = false;
  start_error = none;
  dial = DialResult.dial_error "refused";
  register_error = none;
}

abbrev fresh : ConnectionManager
fresh = new_connection_manager config true

abbrev states : List ConnStateInfo → List ConnState
states [] = []
states (i ∷ is) = i.state ∷ states is

first_connect :
    states (connect_sync (works 1) fresh).1.sent
    ≡ ConnState.discovering ∷ ConnState.connecting ∷ ConnState.registering ∷ ConnState.ready ∷ []
unfolding connect_sync
first_connect = refl

-- The server is away for one attempt, then back.
abbrev retries : ℕ → Wait
retries n = elapsed false (if leb n 1 then refused else works 2)

abbrev history : List ConnectionEvent
history = connected (works 1) ∷ ended 1 retries (λ n. "1s") ∷ []

-- The second attempt connects, and the manager is failed.
after_retry : (run history fresh).client ≡ some 2
unfolding run step
after_retry = refl

still_failed : (run history fresh).state ≡ ConnState.failed
unfolding run step
still_failed = refl

run-Walk_example : Walk ConnState.discovering (run history fresh).sent (run history fresh).state
run-Walk_example = run-Walk history config

abbrev broken : ConnectionManager
broken = record fresh { state = ConnState.failed }

run-failed_example : (run (reconnected (works 3) ∷ []) broken).state ≡ ConnState.failed
run-failed_example = run-failed (reconnected (works 3) ∷ []) broken refl

connect_sync-Connected_example : Connected (connect_sync (works 3) fresh) 3 ConnState.ready
connect_sync-Connected_example =
    connect_sync-Connected (works 3) 3 fresh refl
      (record { started = inr (inr refl); dials = refl; registered = inr refl })

backoff_example :
    IsNear
      (plain_delay (pos 3) 1000000000 30000000000)
      (backoff_delay (λ n. n - 1) (pos 3) 1000000000 30000000000)
backoff_example =
    backoff_delay_bounds (λ n. n - 1) (pos 3) 1000000000 30000000000 (λ n h. omega arith)
      (omega arith) (omega arith) (omega arith)

-- A cap next to the longest duration: the sum wraps around.
wrapped_delay :
    backoff_delay (λ n. n - 1) (pos 0) 9223372036854775807 9223372036854775807
    ≡ negsuc 7378697629483820648
unfolding backoff_delay min
wrapped_delay = refl

third_delay : backoff_delay (λ n. n - 1) (pos 3) 1000000000 30000000000 ≡ pos 9599999999
unfolding backoff_delay
third_delay = refl

abbrev weak : ConnectionManager
weak = record fresh { state = ConnState.degraded; missed_pongs = 4; heartbeat = some 1 }

send_heartbeat_example : PingResult false weak (send_heartbeat false weak)
send_heartbeat_example = send_heartbeat-IsPulse false weak (slow refl (omega arith) (omega arith))
