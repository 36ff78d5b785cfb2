-- ===== src/Lib.antt =====
-- Verification of cursor-agent2api: a gateway that runs Cursor Agent v1 conversations for clients of
-- other protocols. The Go package cursoragentv1 keeps the conversation of a session in files, talks
-- to Cursor over Connect frames on an HTTP/2 stream, hands tool calls to the client, and resumes when
-- the client brings the results.
--
-- The parts, and where they are modelled:
-- - Connect: cursoragentv1/connect.go, with the framing loop of cursoragentv1/runner.go. Bytes are
--   numbers; a frame is its flags and its payload. Connect/Frames is about one frame,
--   Connect/Chunks about a stream of chunks.
-- - Usage: cursoragentv1/usage_observation.go. Usage has the observed counters and the measured turn,
--   Usage/Facts the facts that a stream of events leaves behind (`usageFacts`), Usage/Counts,
--   Usage/Sums and Usage/Chain what is proved of them. An int64 is an integer with the wrap-around of Base/Int.
-- - Ids: the helpers on tool-call ids, batches and results of cursoragentv1/state.go and
--   cursoragentv1/segment.go. Texts are lists of bytes, as Go compares and trims them.
-- - Store: the `FileStateStore` of cursoragentv1/state.go. A store is its directories, each a list of
--   files by name, with the locks that are held; an operation takes a store to a store and a result,
--   and it keeps what it wrote when it fails. Store has the records, leases and reads; Store/Directory
--   files by name; Store/Index the pending index (`syncPendingIndex`); Store/Mutation and Store/Update
--   the operations of an owner (`update`, `SavePending`, `Delete`, ...); Store/Prune the expiry of
--   states and completed snapshots (`pruneExpired`); Store/Claim the steps of `Claim`,
--   Store/Claim/Catalog the tool catalog, Store/Claim/Run the whole `Claim`; Store/Resolve
--   `ResolvePending` and `OriginalPendingBatch`; Store/Tombstone the records of
--   completed snapshots and Store/Completed how they are written and matched; Store/Covering the
--   lookup of the completed snapshots that submitted results cover (`LookupCompleted`); Store/Save
--   what an owner saves of a finished run (`SaveCompleted`, `SaveHistory` of
--   cursoragentv1/completed_request.go). The other files below Store are proofs: Store/Fencing,
--   Store/Credential, Store/Waiting, Store/Reach, Store/Match, Store/Replay, Store/Twice,
--   Store/Completion, Store/History, Store/Covering/Newest and Store/Covering/Sound state the results; Store/Frame,
--   Store/Granted, Store/Origin, Store/Owner, Store/Locks, Store/Safe, Store/Lookup, Store/Pending
--   and Store/Covering/Rounds carry them.
-- - Manager: the `SessionManager` of cursoragentv1/manager.go, with the helpers of
--   cursoragentv1/segment.go and cursoragentv1/manager_history.go. Manager/World has the state of a
--   process: the store, the sessions by id, the flights by key, and what Go shares by pointer
--   (`managedSession`, `managedOutput`, `resumeFlight`) at addresses; an operation takes a world to a
--   world and a result. Manager/Calls has the helpers on pending calls; Manager/Output the channel of
--   a turn; Manager/Events `handleEvent` and `emit`; Manager/Flights the resume flights; Manager/Turns
--   `startClaimed` and `resume`; Manager/Ends `Park`, `Cancel` and the end of `run`; Manager/Replays
--   what a request is answered with from a replay; Manager/Start `Start`; Manager/Resumption and
--   Manager/Resume `ResumeTools`; Manager/FollowUp `StartFollowUp`; Manager/History `StartHistory`.
--   Below them, Calls/Routes, Calls/Filter, Output/Delivery, Flights/Run, Ends/Honest, Ends/Told,
--   Turns/Handed and Resume/Told state the results, the files named Frame, Keeps and Single carry
--   them.
-- - Snapshot: cursoragentv1/completed_events.go with `persistEvents` of
--   cursoragentv1/completed_state.go: how the events of a run are combined for a replay. Snapshot has
--   the operations; Snapshot/Coalescing, Snapshot/Append and Snapshot/Facts relate them to the facts
--   of Usage.
-- - Types: the records that the parts share. Base: lists, integers, texts, `strings.TrimSpace`,
--   sorted sets of texts.
--
-- How they interact: the manager reserves a session, claims it in the store, which gives it an owner
-- with a lease, and starts a run; the events of the run go through the session to the client's
-- output, and into a snapshot; `Park` saves the pending tool calls by the owner; the ids that a
-- client submits are brought to a normal form by Ids and resolved to a session by the pending index;
-- the results go to the live session, or the saved one is claimed again; at its end the run leaves a
-- completed snapshot in the store, with which the same results are answered without another run.
--
-- Parameters: SHA-256, the canonical JSON of a schema and the size of a state's JSON are the fields
-- of `Platform`; the time and the UUIDs of a claim are arguments. The sizes of the JSON texts of a
-- completed snapshot are the fields of `Encoder`. The fields that protowire reads off a message are
-- an argument of the usage observations. Nothing is assumed of them but what a theorem names.
--
-- Bounds and fuel: the loop that takes frames off the buffer runs on fuel, the length of the buffer
-- and one, which is enough since a frame has at least five bytes; trimming runs on the length of the
-- text. An int is that of a 64-bit platform. A generation is a uint64. Instants and durations are
-- numbers of nanoseconds, 0 the zero time.
--
-- Time in the manager: what an operation takes from outside, the clock and the UUIDs, is a `Moment`.
-- An operation of the manager is one step, although Go releases its locks in the middle of it; the
-- order of whole steps is free. A wait is a list of rounds with what the process does between them,
-- the end of which is the timeout.
--
-- Not modelled: failures of the file system and of JSON decoding, temporary files, waiting for the
-- lock of an index file (each of its operations runs as a whole), more than one reading of the clock
-- in one operation, the rebuilding of the indexes at start-up, the interleaving inside an operation
-- of the manager, the runner's timers and network, the protobuf codec (generated), and the
-- translation of the public protocols (JSON).
pub mod Base
pub mod Types
pub mod Usage
pub mod Ids
pub mod Store
pub mod Connect
pub mod Snapshot
pub mod Manager
