-- ===== src/Lib.antt =====
-- Astesia is a desktop client for seven database engines. This library models seven of its
-- parts: the data grid, in which the page of a table is loaded, edited and saved; the background tasks;
-- the runtime that holds the connected drivers; the registry of the MCP sessions that use
-- connections; the service that runs the MCP sidecar; the reader that splits SQL scripts; and the
-- selection in a query's result with the text that is copied. The paths below are from the repository's root.
--
-- A caller (the grid's view, under src/ui/data_grid_item) owns one `GridSession`. It asks the session
-- for a load or a save request, lets a service run it, and hands the result back. The session decides
-- by its state and by the request's generation whether a result is taken. It keeps the staged changes
-- in a `GridChangeSet`, the selected rows or cells in a `GridSelection`, and asks the engine's
-- capabilities whether rows can be written.
--
--   Db/Engine            src/db/engine.rs: EngineCapabilities::for_engine, DbType::profile_spec
--   Db/Script            src/db/sql_script.rs: SqlScript; its children Statement (PendingStatement), Source
--                        and Scan are src/db/sql_script/reader.rs: Source, State, scan
--   Db/Script/Reading, Lookahead, Trim, Starts, Moves, Rounds, Ends, Order: the proofs, from what a source
--                        reads to the order of a script's statements
--   Grid/Types           the structs and enums of src/application/grid_session.rs
--   Grid/Page            GridPage::new and with_enum_values
--   Grid/Drafts          the list of drafts of src/application/grid_session/changes.rs
--   Grid/Changes         GridChangeSet: stage_cell_value(s), insert_draft, set_draft_value,
--                        unset_draft_value, remove_draft, delete_rows, undo, undo_entry, clear
--   Grid/Plan            GridChangeSet::save_plan
--   Grid/Selection       src/application/grid_session/selection.rs
--   Grid/Session         GridSession, its state (lifecycle.rs), new, begin_load, finish_load
--   Grid/Session/Guards  editability, require_editable, require_row, require_cell
--   Grid/Session/Query   set_page, set_filter, set_query_options, invalidate_session
--   Grid/Session/Save    save_plan, begin_save, finish_save, undo, discard_changes
--   Grid/Session/Edit    select_row, select_cell, the stage_ operations, the draft operations
--   Grid/Session/Project export_rows and the projections
--   Grid/Session/Views   what a caller reads of a session
--   Grid/Changes/*, Grid/Plan/*, Grid/Selection/Laws, and the rest of Grid/Session: the proofs. Reach
--                        takes the session's calls as steps of a relation.
--   Grid/Tests           a page of two rows, and the theorems at it
--   Tasks                src/tasks/mod.rs: TaskManager with spawn, update_progress, cancel_task, finish,
--                        TaskEntry::complete, prune_completed
--   Tasks/Invariant, History, Named, Prune, Steps, Once, Evolution, Ended, Phases, Calls, Progress, Cancel,
--                        Listing: the proofs. Steps takes the manager's calls as steps of a relation, Evolution
--                        says what a step does to one entry, Phases what each call may make of a task's
--                        phase, and Calls that it does no more.
--   Runtime              src/connection_runtime/state.rs (RuntimeState) and driver.rs (DriverHandle)
--   Runtime/Connect      src/connection_runtime/mod.rs: connect_replacing, connect_exclusive,
--                        allocate_generation, disconnect_if_generation
--   Runtime/Disconnect   mod.rs: disconnect, disconnect_replacing_under_global,
--                        reconcile_revisions_under_global, and what a caller reads of the runtime
--   Runtime/Steps, Intents, Handles, Held, Stale, Opening: the proofs, over the steps between which
--                        other operations may run
--   Sync                 the data of src/mcp_sync_server/registry/state.rs and src/mcp_sync.rs
--   Sync/Tombstones      BoundedTombstones of state.rs
--   Sync/Registry        RegistryState and its helpers, and registry/protocol.rs
--   Sync/Operations      registry/operations.rs: acquire, connected, released
--   Sync/Controls        registry/control.rs: force_disconnect, poll_control
--   Sync/Acknowledge     registry/control.rs: control_result
--   Sync/Closing         registry/control.rs: close_session, reset_service
--   Sync/Replay          registry/idempotency.rs: apply, remember_response
--   Sync/Snapshot        snapshot_from_state of state.rs, is_connection_in_use of registry.rs
--   Sync/Generations, Acquire, Ended, and the Laws below Tombstones and Replay: the proofs
--   Mcp/State            src/mcp_runtime/state.rs, status.rs, config.rs: RuntimeState and its snapshot
--   Mcp/Termination      service.rs and termination.rs: what start, stop, fail_and_terminate and
--                        record_termination do while they hold the state
--   Mcp/Steps            these as steps that interleave, with the processes and servers outside
--   Mcp/Reaper           reaper.rs: ProcessReaper
--   Mcp/Owners, Unlocked, Invariant, Signals, Ends, Records, Reachable: the proofs
--   Query/Selection      src/application/query_result_selection.rs: QueryResultSelection, to_tsv, format_tsv
--   Query/Escaping, Copying, Bounds: the proofs, with a reader of tab-separated text to compare with
--   Tasks/Tests, Runtime/Tests, Sync/Tests, Mcp/Tests, Db/Script/Tests, Query/Tests: concrete inputs, and the theorems at them
--   Base                 lists, sorting, hash maps as tables, outcomes, sorted maps (BTreeMap, BTreeSet), texts
--
-- A method that takes `&mut self` is a function from the session to the new session and the result.
-- `Err` is `err`, and a panic (an index out of range, an `expect`) is `panic`. Where the source returns
-- `Err` it has not written to the session before, so an error carries no session. A u64 generation is
-- advanced by `checked_succ`, which fails beyond 2 ^ 64 - 1; row and column numbers are not bounded. A
-- BTreeMap is a list of pairs in increasing order, and the history is a stack, its newest entry
-- outermost. Loops are recursion on a list. `show`, the printing of a number, runs on fuel: the number
-- itself, of which each digit takes a tenth.
--
-- A script is read from the list of its bytes, character by character. The loop of `scan` and that of
-- `dollar_delimiter` run on fuel, the number of bytes and of characters read ahead: each round takes one.
-- Where the fuel would run out the model panics, so that a proof that a call does not panic shows that it
-- is enough. The MCP service holds two locks: the cleanup lock for the length of an operation, and the
-- state's lock for one step of it. In the steps a process is known by its control handle, and a
-- generation does not wrap around: a service is started fewer than 2 ^ 64 times.
--
-- Long work runs as a task of the `TaskManager`, whose worker reports through update_progress and ends
-- through finish. The services lock a `DriverHandle` of the connection runtime while they talk
-- to a database, and an MCP session that wants a connection acquires it from the registry first. These
-- parts are async: each function is what happens under one lock, and where an operation lets go of a
-- lock on its way, what others do there is an argument (`meanwhile`) or another step of the relation. A
-- HashMap is a list of pairs in which a key stands once, and its order is not relied on. The clock, new
-- UUIDs and addresses, the drivers' results and the repository's check of a profile are arguments.
-- `allocate_generation` runs on fuel, of which two rounds are enough. An f32 of a task's progress is a parameter with the laws that Rust documents, NaN included.
--
-- A cell's value is serde_json's, which is a parameter: `JsonValue` holds its `==` and `is_null`.
-- Nothing is assumed of them.
--
-- Not modelled: GridColumn's kind and the parsing of a cell's input, selection_tsv (it formats texts),
-- the sort list's parser (a third-party crate), the services that run the requests, the workers of
-- tasks, the lifecycle locks of the runtime and its watch channel, the registry's notifications and its
-- HTTP transport, and everything outside these parts: the rendering of
-- statements, drivers, the connection tree, the sidecar's output, the MCP policy and
-- tools, storage and the user interface.
pub mod Base
pub mod Db
pub mod Grid
pub mod Mcp
pub mod Query
pub mod Runtime
pub mod Sync
pub mod Tasks
