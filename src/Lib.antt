-- ===== src/Lib.antt =====
-- A model of modeltap, a local runtime and terminal harness for language models, and its theorems.
--
-- The program's parts that are modelled, and where:
--
-- * internal/harnessshell, the conversation shell. Shell.Types and Shell.State hold the boundary
--   types (types.go) and the shell-owned state (state.go) as data types and records; a method on
--   `*state` is a function from the state to the new state, with its result in front.
--   Shell.Input (input.go: history), Shell.Permissions (permissions.go), Shell.Queue (queue.go),
--   Shell.Events (events.go) and Shell.Tokens (tokens.go) have one function for each Go
--   function, in snake case; Shell.Step has the initial state and the Esc key of model.go,
--   Shell.EnterKey its Enter key, and
--   the inputs that drive the shell.
-- * internal/storage/runs.go and store.go, durable runs. Runs.Types has the records, Runs.Store the
--   tables and the creation of a run, Runs.Append the append of an event with its state update and
--   the reading of the log; Runs.Log, Dense, Create, Created and Paging hold the theorems. A table is
--   the list of its rows with the keys and references of the schema (sqlite.go); a transaction maps
--   the tables to new ones, and an error keeps the old ones. Generated identifiers and the clock are
--   the record Fresh. Left out: list filters, model calls, tool results, turn links and costs.
-- * internal/runtime, the controls of runs. Control.Types has the requests and the server's state,
--   Control.Registry is run_registry.go, Control.Answers has the shared checks of run_runtime.go and
--   Control.Handlers one function for each handler of run_controls.go, dispatched by `handle`, which
--   runs `getAuthorizedRun` first as every handler does. Control.Changes classifies what a request
--   does to the tables; Active, Linked, Ended, Replay and Cancel hold the theorems. The `Marshal` of
--   encoding/json is an argument, and so is the run that a full registry evicts. Left out:
--   run.create, run.list, run.permissions, the lifecycle events of a turn.
-- * internal/provider/truncate.go and message.go, fitting a conversation into a model's window.
--   Truncation.Types has the messages and the token estimates, Truncation.Truncate the walk from the
--   newest message, the reconciliation of tool pairs and `truncate`; Pairs and Window hold the
--   theorems. encoding/json's `Marshal` of tool calls and results is the parameter Encoding.
--
-- * internal/harness/tools, what the harness lets a model run. Tools.Dangerous has the catalogs of
--   dangerous.go, whose patterns Tools.Regex matches by backtracking over the runes before and after
--   the position; Tools.Git has the splitting and the classification of git.go, Tools.Permission the
--   enforcer of permission.go, and Tools.Framework the registry and the executor of framework.go and
--   the tracker of tracker.go. Tools.Json decodes a tool's input as encoding/json does. A panic of a
--   registration is `none`. Danger, Policy, Remembers, Catalog, Listing and Words hold the
--   theorems. Left out: the tools
--   themselves, which are process and file I/O; net/url and strings.ToLower are the record Library.
--
-- * internal/runtime/conversation.go, the messages of a session in memory, and internal/storage/turns.go,
--   their rows. Conversation.Types has the records, with encoding/json on messages as the record Codec
--   and its promises as IsCodec; Conversation.State has the appends, the restore and the pending tool
--   calls, Conversation.Table the table turns, Order what its sorting gives, and Conversation.Live the places of
--   turn.go and streaming.go that change both: the append and persist of handleTurnSubmit, handleToolResult and
--   persistAssistant. Records, InStep, Steps, Restore, Pending and Lost hold the theorems.
--
-- * internal/runtime/registry.go and routing.go, the models that are known and the choice of one.
--   Models.Registry has the passes that build the catalog and its listings, Models.Routing the routing
--   tree, whose values are Tools.Json's, and Models.Switch the handler of model.switch, with the
--   sessions and the active ones as tables; its theorem stands there too, and Models.Precedence has the
--   order of the sources. A range over a Go map takes its keys from the last to the first.
--
-- * internal/runtime/compact.go, compaction. Compaction.Plan has the buckets, the token counts and the
--   plan, Compaction.Apply what an accepted plan does to the rows of Conversation.Table; Tokens,
--   Distinct and Keeps hold the theorems. `int(0.9 * float64(n))` is nine tenths in whole numbers, the
--   same below 2 ^ 49, and a float quotient is the pair of its numbers. The texts of a summary and of
--   its preview are arguments.
--
-- * internal/storage/sessions.go, the table sessions. Sessions.Table has the rows and the listing,
--   Sessions.Locks the lock of a session; Exclusion holds the theorem. Instants are numbers,
--   compared in Sessions.Instants as the texts that the table keeps.
--
-- * internal/runtime/session.go, the requests on sessions. Sessions.Active has the active sessions and
--   the server's tables, Sessions.Handlers create, resume and clear, Sessions.Copy fork; Resume, Fork
--   and Denied hold the theorems. Fresh identifiers and the clock are arguments, a project is its root, and
--   the database itself does not fail. Left out: session.list and session.details, which report.
-- * internal/harness/connection.go, the harness's connection. Connection.Types has the states and the
--   manager, Connection.Transition the graph and a change of state, Connection.Connect the connect
--   flow and the reconnect loop, Connection.Backoff the delays, Connection.Heartbeat the pings, the
--   end of a client and the step function. Keeps carries what every change of state keeps to whole
--   histories; Traces, Ready and Pulse hold the theorems. The loop recurs on the attempts left, and
--   what the environment answers is given for each attempt. Goroutines take their steps one at a time.
-- * internal/harnesshost, the host between server and shell. Host.Messages has the messages
--   (harness/messages.go), Host.Bridge the translation of notifications (HandleEvent), Host.Projection
--   that of messages to shell events, Host.Adapter the forwarding and its buffers, Host.Dispatch the
--   shell's actions. The shell is any type with an update on events; Counts has one that records
--   them. Conserved, Paused, Branches and Previews hold the theorems. A float is an abstract value.
--
-- The controls read and write the tables only through Runs; the shell is a client program that
-- sees runs as host events. A turn is appended to the conversation and stored by Conversation.Live; its
-- models come from Models.Routing, Truncation fits its messages into the window, and compaction rewrites
-- the stored turns. The tools run in the harness, under Tools.Permission.
--
-- Conventions. A Go string is a text of code points, with Go's `strings` functions in Prelude.Text;
-- `int` values that the code lets go negative are the integers of Prelude.Int, counters are natural
-- numbers and do not wrap. A nil slice or map is the empty one. A map is an association list. The
-- clock, generated identifiers and third-party widgets are arguments. No loop needs fuel but the
-- printing of a number, whose fuel is the number plus one, above its count of digits.
--
-- Not modelled: the parts that no item above names (the server's dispatch and connections, the
-- streaming of turns, the commands of the host, proxy, providers, configuration, command line),
-- mostly I/O or planned; the making of a token from a paste or a dropped path; rendering, the window
-- size and the viewport; SQL, HTTP, terminal and process I/O.
pub mod Compaction
pub mod Connection
pub mod Control
pub mod Conversation
pub mod Host
pub mod Models
pub mod Prelude
pub mod Runs
pub mod Sessions
pub mod Shell
pub mod Tools
pub mod Truncation
