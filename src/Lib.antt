-- ===== src/Lib.antt =====
-- letts: a daemon (dugdale) that runs missions, which are queued in lanes of limited concurrency,
-- keeps their files in a staging area until they expire, and serves clients over HTTP.
--
-- The parts and how they interact:
--   Storage     internal/storage: the tables and the statements on them. Storage/Rows has the rows,
--               Storage/Missions and Storage/Listing missions.go, Storage/Staging staging.go, and
--               Storage/Refs refs.go, which gives a staging file its expiry from the missions that
--               reference it.
--   Lane        internal/lane/runner.go: the loop of a lane, which claims queued missions with the
--               statements of Storage/Missions and hands them to the Spawner. Lane/Manager is
--               manager.go, which starts, stops and resizes the loops of the configured lanes.
--   Cleanup     internal/cleanup: Missions is missions.go, the sweeps that delete retired missions,
--               and StagingGc staging_gc.go, the cycles of the garbage collector of staging files,
--               both with the statements of Storage; DiskScan is disk_scan.go, which removes files
--               whose row is gone.
--   Mission     internal/mission/outcome.go: `Compute`, the outcome of a mission that has ended.
--               fd3reader.go, which records what a mission reports, is Fd3Codec (what it takes from
--               Go's libraries), Fd3Violations (its texts), Fd3Reader (its state and `handleLine`)
--               and Fd3Lines (`readLineBounded` and `ReadFd3`).
--               Mission/Finalize is finalize.go: DoneEvent the terminal event, Transactions the
--               writer transactions, Commit the tail that all paths share, and Finalize the phases;
--               Mission/QueuedKill is queued_kill.go. Mission/Machine is what they run on.
--   EventFile   internal/eventfile/writer.go: the events file of a mission, and in Json the equality
--               of events, by which a done event that is there already is recognised.
--   Repair      internal/repair, at startup: Intents (intents.go) finishes the intents of an unclean
--               shutdown, with the programs of Mission/Finalize; Terminal (terminal.go) restores
--               done events, Lost (lost.go) finalizes the missions that were still running, and
--               Orphans (orphans.go) removes files whose row is gone.
--   Apply       internal/apply: what an apply of the lane configuration decides, from the missions
--               of Storage and the stored state (`Apply` to the end of step 4, and diff.go).
--   Middleware  internal/server/middleware: BruteForce is bruteforce.go, Auth is auth.go, which
--               asks the tracker before the header and reports to it.
--   OutputFile  internal/outputfile/truncate_writer.go: stdout and stderr of a mission, which share
--               one budget of bytes.
--   StagingStore internal/stagingstore/upload_lock.go: the exclusion of concurrent uploads, which the
--               garbage collector asks (a function in its `Cycle`).
--   Config      internal/config/validation.go: the names that the protocol and the files accept.
--   Jcs         internal/jcs/canonicalize.go: canonical JSON, with the order of keys in Utf16 and the
--               texts of numbers in Numbers.
--   Fingerprint internal/fingerprint: fingerprint.go and exec.go, on top of Jcs.
--   Cli         cmd/letts/exec_exit.go and exitcode.go: exit codes of the client.
--   Prelude     tests, lists, integers of 64 bits and keyed tables, which the parts share.
-- Under each part, a file holds the definitions, its child modules the proofs, and Tests the runs.
--
-- Functions keep their names in the spelling of this library: `PickQueuedForLane` is
-- `pick_queued_for_lane`. Conventions: a mission or staging id, a UUIDv7, is its number of 128 bits,
-- whose order is that of the text. A time is a natural number of Unix milliseconds, in Middleware of
-- nanoseconds; time_expires is an integer, since a recalculation stores -1 for a file whose missions
-- have no finish time. A duration is a number of nanoseconds, and int64 additions wrap. A JSON column
-- is its text or the value it encodes. A SQL statement is a function on the lists of rows; it either
-- changes the rows it matches or answers the error of the Go function. An HTTP header is its bytes.
--
-- The loop of a lane is a state machine whose phases lie between the effects that other goroutines
-- can see; `Step` interleaves it with every call of the runner, with its timers, and with arbitrary
-- other writes to the database. A channel of size one is a Boolean. Only
-- `read_fd3` takes fuel, one turn of its loop more than there are reads, which is proved enough; every
-- other loop of the source that is modelled runs over a list or a counter, or is a relation of steps.
--
-- The finalize protocol runs on a `Machine`: a world of database, events files and output files, and
-- the number of durable steps (a transaction, an append, a rename, a removal) before the process dies.
-- An append in which it dies leaves what the machine's `torn` write leaves. The number of steps is no
-- fuel of the code but the place of the death; that three steps are enough for a mission without
-- outputs, and two for its repair, is proved. A file is known by the SHA-256 of its content.
--
-- Not modelled: other failures of SQLite than those named below, processes and signals, the JSON
-- and YAML codecs (decoded values take their place, and `Host` has the functions), HTTP routing,
-- and the texts of log lines; the tickers of cleanup and other writers within one of its cycles.
-- The stored done event of an intent is a decoded value too: the error of decoding its text, which
-- an unreadable text gives, does not occur, and its numbers are whole ones that a float64 holds. A
-- failure of SQLite is modelled in Apply, where a failing count query lets its guard pass, and in
-- Cleanup. A failure of the file system is modelled in the events file, as a missing file, in
-- OutputFile, where a write may store a prefix, and in Cleanup and Repair/Orphans as a call that
-- fails; elsewhere it is a death of the process. The texts that Go's fmt, strconv and time packages
-- produce are the fields of `Format` in Mission/Outcome.
pub mod Prelude
pub mod Storage
pub mod Lane
pub mod Middleware
pub mod Mission
pub mod Apply
pub mod OutputFile
pub mod EventFile
pub mod Repair
pub mod Cleanup
pub mod StagingStore
pub mod Config
pub mod Jcs
pub mod Fingerprint
pub mod Cli
