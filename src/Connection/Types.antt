-- ===== src/Connection/Types.antt =====
-- internal/harness/connection.go and model.go: the configuration and the state of the manager.
use modeltap.Prelude.{ℕ, String, Bool, List, Option}
use modeltap.Prelude.Int.{ℤ}

-- The constants `ConnState…`.
pub data ConnState : Type 0 where
  discovering starting connecting authenticating registering ready degraded reconnecting failed :
      ConnState

pub record ConnStateInfo : Type 0 where
  pub state : ConnState
  pub detail : String
  pub attempt : ℕ
  pub max_retries : ℕ

-- Durations are nanoseconds. `registers` tells whether a registration is set. The server binary,
-- the TLS settings and the pace of the heartbeat are left to the environment.
pub record ConnectionConfig : Type 0 where
  pub socket_path : String
  pub tls_address : String
  pub auto_start : Bool
  pub reconnect_initial : ℕ
  pub reconnect_max : ℕ
  pub reconnect_max_retries : ℕ
  pub registers : Bool

-- A client is named by a number. `heartbeat` is the client that the ticking goroutine pings, `none`
-- if `heartbeatCancel` is nil. `watchers` are the clients whose end a goroutine waits for, the
-- latest first; `loop_cancel` is the one whose goroutine `loopCancel` stops. `sent` are the
-- messages for the program, and `closed_clients` those that were closed, the latest last.
pub record ConnectionManager : Type 0 where
  pub config : ConnectionConfig
  pub has_sender : Bool
  pub state : ConnState
  pub client : Option ℕ
  pub missed_pongs : ℕ
  pub reconnect_attempt : ℕ
  pub heartbeat : Option ℕ
  pub watchers : List ℕ
  pub loop_cancel : Option ℕ
  pub closed : Bool
  pub sent : List ConnStateInfo
  pub closed_clients : List ℕ

-- An error of a registration: one of the protocol with its code, or of the transport.
pub data RegisterError : Type 0 where
  rpc : (code : ℤ) (message : String) → RegisterError
  transport : (message : String) → RegisterError

pub data DialResult : Type 0 where
  dialled : (client : ℕ) → DialResult
  dial_error : (message : String) → DialResult

-- What the environment answers in one run of `ConnectSync`: does the socket answer the probe, the
-- error of an auto-start, the dial, and the error of the registration.
pub record Attempt : Type 0 where
  pub answers : Bool
  pub start_error : Option String
  pub dial : DialResult
  pub register_error : Option RegisterError
