-- ===== src/Lib.antt =====
-- Verification of Hirsel's core logic, translated by hand from the Rust sources.
--
-- Hirsel runs agents in a tree of Threads on a host. Clients hold a live copy of what the host
-- shows, over a connection that may drop at any time. Three parts are modelled here: the client core, which
-- keeps that copy and what the user has not sent yet; the host's rules on which Thread may address
-- which other; and the host's storage of turns, requests and activities. The parts meet in the data of
-- the protocol, and the two host parts in the tables.
--
-- - Proto: crates/hirsel-proto/src (chat.rs, thread.rs, thread_icon.rs, turn.rs, process.rs,
--   client.rs, host.rs). The data of the frames that the client core reads or writes. A JSON value
--   and an instant are their text. HostToClient has one constructor for the frames that the client
--   core ignores, and a hello has the fields that it reads.
-- - Client.Entry, Client.Store: crates/hirsel-client-core/src/store.rs. LocalStore is a record, and
--   each method is a function to the new store. Maps and sets are lists of entries, in one fixed
--   order where the program iterates over them.
-- - Client.Inner: ClientInner of client.rs, with LifecycleEvent of observer.rs. What a step tells
--   the observer or the transport task is a list of outputs.
-- - Client.Dispatch: handle_server_message of transport.rs, one function for each larger arm.
-- - Client.Commands: the methods of Client in client.rs (send_message is send_chat; create_thread,
--   open_thread, thread_action, add_thread_related and remove_thread_related are request_create,
--   request_open, request_action, add_related and remove_related).
-- - Client.Handshake, Client.Flush, Client.Session: HandshakeState, flush_pending and run_session of
--   transport.rs. The loop of run_session runs over the list of events that its select hands it, in
--   any order; the channel is a function that says which frames it takes. New identifiers and the
--   clock are arguments. The hello is taken to be sent, and a session's end carries no reason text.
-- - Client.Loop: run of transport.rs, the loop of attempts, over the list of what each attempt meets.
-- - Client.Timeline, Client.Reconnect: timeline.rs, and the reconnect policy of config.rs with its
--   64-bit saturation; floating point is a parameter.
-- - Host.Tables, Host.Scope, Host.Grants: crates/hirsel-host/src/storage/thread_scope.rs and
--   thread_grants.rs, on the rows of the tables that they read and write. An error leaves the tables
--   as they were, as the transaction is not committed. The JSON text of a request is a parameter.
-- - Host.Closure: SQLite's WITH RECURSIVE, as a number of steps. The queries take the highest Thread
--   id as that number, which is enough: a parent is older than its children, so each step along the
--   tree passes to a higher id (or, upward, to a lower one).
-- - Host.Rollups: crates/hirsel-host/src/thread_rollups.rs, the choice of a headline's child from the
--   rows of the query. Host.Turns.Headlines: the query itself, and the loop up the ancestors; its
--   fuel is the Thread's id and one more, as a parent is an older row with a smaller id.
-- - Host.Turns.Rows: the rows of current.sql's tables with their constraints, for
--   crates/hirsel-host/src/storage/thread_activity.rs. Host.Turns.Queue and Host.Turns.Finish: the
--   rest of that file, ensure_accepts_work of thread_archive.rs and thread_completion.rs. `select` and
--   `get` are select_execution, get_turn and get_thread.
-- - Host.Turns.Execution, Reports, Delegation, Requests, Archive, Callers: thread_execution.rs,
--   thread_delegation.rs, thread_requests.rs, thread_archive.rs and the bindings and process
--   authorities of thread_scope.rs, in the same folder.
-- - Host.Turns.Messages: thread_messages.rs and thread_events.rs in the same folder, and the reset of
--   crates/hirsel-host/src/storage.rs. How an action is decoded and validated (thread_instrument.rs)
--   is the parameter ActionTexts; the columns of icons and the reads (thread_detail) are left out.
-- - Host.Turns.Texts: the functions on texts and timestamps that these files take from libraries, as
--   one record that is a parameter.
-- - Host.Threads.Rules, Create, Edit, Headline: the operations of
--   crates/hirsel-host/src/storage/threads.rs on single Threads. The functions on texts, the check of
--   an instrument's JSON among them, are one record that is a parameter. Host.Threads.Agent: the
--   creation of a Thread by an agent, from thread_mutations.rs.
-- - An operation in a transaction returns the tables on success alone; one without a transaction
--   returns the tables that it leaves, with its result; a refresh of headlines that fails partway there
--   is taken to leave the headlines as they were. The clock is one argument of each operation.
--   A request's payload has the members that storage reads or writes; a stored JSON text is its value.
-- - Host.Turns.Machine: what storage promises of the turns, as a step relation on the table of turns
--   alone. Host.Turns.Refines: StorageStep lists the operations that write this table (and any change
--   that leaves it as it is), StorageLife has the resets as well. Host.Threads.Steps: ThreadStep lists
--   the operations on the table of Threads, resets and any change that leaves parents and kinds.
--
-- The other modules prove: Client.WellFormed, Client.Progress, Client.Delivery, Client.Streams,
-- Client.Snapshots, Client.Sending and Client.Silence of the client, Host.Reach,
-- Host.Granted, Host.Authority and Host.Receipts of reach, in Host.Turns the modules Kept,
-- Runs, Climb, Refines, Bound, Held, Wakes, Fifo, Told and Boot of the turns, and in Host.Threads the
-- modules Kinds, Writes, Refreshed, Grown, Shown, Steps and Fenced of Threads. The modules called Examples hold
-- concrete runs.
--
-- Not modelled: the WebSocket and iroh channels, the host's other storage (receipts of mutations,
-- artifacts, related items, devices), its agent runtime and lanes but for the next request, its
-- protocol and network layer, the drivers of external agents, plugins, bindings and user interfaces.
pub mod Base
pub mod Proto
pub mod Client
pub mod Host
