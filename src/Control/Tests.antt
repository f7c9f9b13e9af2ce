-- ===== src/Control/Tests.antt =====
-- Requests on the run of Runs.Samples.
use mathlib.Core.Path.{subst}
use modeltap.Prelude.{◌≡◌, ℕ, zero, suc, refl, ap, String, true, false, List, [], ◌∷◌, arith}
use modeltap.Prelude.Int.{pos}
use modeltap.Prelude.Text.{str_eq, ◌<>◌, decimal}
use modeltap.Runs.Types.{Run, valid_run_statuses, valid_run_stages, valid_workflow_types}
use modeltap.Runs.Store.{find_run, find_by_key, create_run, insert_run_event}
use modeltap.Runs.Append.{append_run_event, apply_run_state_update, save_checkpoint}
use modeltap.Runs.Log.{HasLogs}
use modeltap.Runs.Samples.{started, started-HasLogs, next_ids, stored_run}
use modeltap.Control.Types.{
  ActiveRun, Registry, Conn, Server, run_fork, run_heartbeat, JsonValue, control, events_page,
}
use modeltap.Control.Active.{IsLinked, register-size}
use modeltap.Control.Linked.{register-IsLinked}
use text.Mathlib.TextPositions.{eq_refl}
use modeltap.Prelude.{Bool-cases, inl, inr, length, ◌≤◌}
use modeltap.Prelude.Text.{str_eq_iff}
use modeltap.Control.Registry.{register, max_tracked_runs, cancel}
use modeltap.Control.Answers.{is_terminal_run_status, get_latest_run_checkpoint}
use modeltap.Control.Handlers.{handle, handle_run_cancel, handle_run_events}
use modeltap.Control.Ended.{HasEnded, handle-HasEnded, handle-HasLogs}
use modeltap.Control.Replay.{handle_run_events_lem}
use modeltap.Control.Cancel.{handle_run_cancel-HasEnded}

abbrev no_json : List (String × JsonValue) → String
no_json fields = "{}"

abbrev ada : Conn
ada = record { id = "c1"; user_id = "ada" }

abbrev bob : Conn
bob = record { id = "c2"; user_id = "bob" }

abbrev a_server : Server
a_server = record {
  db = started.1;
  runs = record {
    by_run_id =
        (
          "r1",
          record {
            id = "r1";
            turn_id = "u1";
            session_id = "s1";
            attached_connection_id = "c1";
            has_cancel = true;
          },
        )
        ∷ [];
    by_turn_id = ("u1", "r1") ∷ [];
    cancelled = [];
  };
  sent = [];
}

a_server-IsLinked : IsLinked a_server.runs
a_server-IsLinked turn run h = elim (Bool-cases (str_eq "u1" turn)) [
  | inr other ↦ ground arith
  | inl same ↦ (
    record {
      id = "r1";
      turn_id = "u1";
      session_id = "s1";
      attached_connection_id = "c1";
      has_cancel = true;
    },
    ground (arith, eq_refl run),
    str_eq_iff "u1" turn same,
    subst (λ t. str_eq t "" ≡ false) (str_eq_iff "u1" turn same) refl,
  )
]

abbrev the_run : Run
the_run = stored_run started.1 "r1"

-- After the run is cancelled.
abbrev ended_server : Server
unfolding handle_run_cancel
ended_server = (handle_run_cancel next_ids "stop" the_run a_server).1

cancels : HasEnded "r1" "cancelled" ended_server.db
unfolding create_run append_run_event valid_workflow_types valid_run_statuses valid_run_stages
    find_run find_by_key insert_run_event save_checkpoint apply_run_state_update
    is_terminal_run_status handle_run_cancel
cancels =
    (handle_run_cancel-HasEnded next_ids "stop" the_run a_server started-HasLogs refl refl refl
      refl).2

-- The answer, the registry and the ended run.
handle_run_cancel-HasEnded_example :
    ((handle_run_cancel next_ids "stop" the_run a_server).0
      ≡ control "r1" true "cancelled" "active run cancelled")
    × ((handle_run_cancel next_ids "stop" the_run a_server).1.runs ≡ (cancel "r1" a_server.runs).1)
    × HasEnded "r1" "cancelled" ended_server.db
unfolding create_run append_run_event valid_workflow_types valid_run_statuses valid_run_stages
    find_run find_by_key insert_run_event save_checkpoint apply_run_state_update
    is_terminal_run_status handle_run_cancel cancel
handle_run_cancel-HasEnded_example =
    handle_run_cancel-HasEnded next_ids "stop" the_run a_server started-HasLogs refl refl refl refl

handle-HasEnded_example :
    HasEnded "r1" "cancelled"
      (handle no_json ada next_ids (run_heartbeat "r1" "h" (pos 1) "") ended_server).1.db
handle-HasEnded_example =
    handle-HasEnded no_json ada next_ids (run_heartbeat "r1" "h" (pos 1) "") ended_server "r1"
      "cancelled" cancels

handle-HasLogs_example : HasLogs (handle no_json ada next_ids (run_fork "r1") a_server).1.db
handle-HasLogs_example =
    handle-HasLogs no_json ada next_ids (run_fork "r1") a_server started-HasLogs

-- One event is stored; a page after number 0 has it, and there are no more.
handle_run_events_lem_example : handle_run_events (pos 0) (pos 1) the_run a_server ≡ (
  events_page 1 false (record {
    events = started.1.events;
    replay_available = true;
    fidelity = "full";
    checkpoint = get_latest_run_checkpoint "r1" started.1;
  }),
  a_server,
)
unfolding create_run valid_workflow_types valid_run_statuses valid_run_stages find_run find_by_key
    insert_run_event
handle_run_events_lem_example =
    handle_run_events_lem 0 (pos 1) the_run a_server started-HasLogs refl

-- A run is registered again under another turn.
register-IsLinked_example : IsLinked (register "r1" "r1" "u2" "s1" "c1" true a_server.runs)
register-IsLinked_example =
    register-IsLinked "r1" "r1" "u2" "s1" "c1" true a_server.runs a_server-IsLinked

abbrev a_run : String → ActiveRun
a_run id = record {
  id = id;
  turn_id = "";
  session_id = "s1";
  attached_connection_id = "c1";
  has_cancel = true;
}

unfoldable many_runs : ℕ → List (String × ActiveRun)
many_runs zero = []
many_runs (suc n) = ("r" <> decimal n, a_run ("r" <> decimal n)) ∷ many_runs n

length-many_runs : (n : ℕ) → length (many_runs n) ≡ n
unfolding many_runs
length-many_runs zero = refl
length-many_runs (suc n) = ap suc (length-many_runs n)

abbrev full_registry : Registry
full_registry = record {
  by_run_id = ("first", a_run "first") ∷ many_runs 4095;
  by_turn_id = [];
  cancelled = [];
}

register-size_example :
    length (register "first" "new" "u2" "s1" "c1" true full_registry).by_run_id ≤ max_tracked_runs
register-size_example =
    register-size "first" "new" "u2" "s1" "c1" true full_registry (λ full. refl)
      (omega (arith, length-many_runs 4095))
