-- ===== src/Lib.antt =====
-- goraft: a model of the Raft node in this repository.
--
-- The parts and where they are modelled:
-- Prelude: shared names, uint64 arithmetic, outcomes of fallible calls, Go maps (Prelude/Assoc).
-- Log: log.go, the entries that `persistentLog` keeps in memory. `Log` has the placeholder entry and
-- the entries behind it. Log/Index and Log/Change are about lookups and about changes, Log/Links
-- and Log/Ledger about logs that match.
-- Disk: files as bytes and a position, and messages behind their size, as log.go and state_storage.go
-- write them. Log/Disk is `persistentLog` with its file: `PersistentLog` has the file, whether it is
-- open, and the entries with their offsets. Log/Disk/Layout says how entries lie in a file,
-- Log/Disk/Represents when a file stands for a `Log`, Log/Disk/Refines that the operations on both
-- agree, and Log/Disk/Replay what is read from a file.
-- StateStorage: state_storage.go. SnapshotStorage: the directories of snapshot_storage.go, with
-- `RemoveTmpFiles`. Options: options.go and the defaults of `NewRaft`.
-- Logging: the logging package.
-- Configuration: configuration.go, with `hasQuorum`, `isVoter` and `isMember` of raft.go.
-- Lease, Future, Operation: lease.go, future.go and operation.go.
-- Event: what a step of a node does outside of its own state, in order: calls started, responses
-- sent, loops woken.
-- Requests, Transport: requests.go and transport.go; Requests/Proto has the message types of
-- internal/protobuf/raft.pb.go, Transport the two ends of a call, Transport/Connections the
-- connection manager, and Transport/Serving the transport from its creation to its shutdown.
-- Raft: raft.go. `Raft` is the state of a started node. Raft/Roles has the role transitions,
-- Raft/Append `AppendEntries`, Raft/Vote `RequestVote`, Raft/Election `election` and
-- `sendRequestVote`, Raft/Replicate `sendAppendEntries`, Raft/Commit `commitLoop`, Raft/Client the
-- submissions and membership changes, Raft/Apply `applyLoop`, Raft/Snapshot `InstallSnapshot` and
-- `takeSnapshot`, with `sendInstallSnapshot` in Raft/Snapshot/Sending, Raft/Reads `readOnlyLoop`,
-- Raft/Loops the turns of the loops, Raft/Encoding a configuration as bytes. Their child modules are
-- about what these do. Raft/Roles/Works and Raft/Roles/Steps list what a node can do as step relations.
-- Random: the sleep of `electionTicker`, with internal/random.
-- Cluster: nodes with the vote requests between them. A step is one of the handlers on one node, with
-- the request or the answer that it takes from a round of `sendRequestVoteToPeers`; messages of other
-- kinds come from anywhere. Cluster/Moves and Cluster/Counts are about one node in a step,
-- Cluster/Restarts about a new process, Cluster/Ballots about the history of votes, Cluster/Rounds
-- about the counter of an election, Cluster/Sound and Cluster/Steps about what outlasts every step,
-- Cluster/Safety about runs.
-- Lifecycle: `NewRaft`, `restore`, `Bootstrap`, `start`, `Stop` and the getters of raft.go. `Node` is a
-- node with a configuration that may still be missing.
-- Examples: the theorems at concrete nodes and logs.
--
-- How the code corresponds: a function of the repository keeps its name in snake_case, and takes and
-- returns the state. The mutex makes the code between two releases of it one step; a function that
-- releases it is cut into a half before and a half after, with the state in between free to change.
-- The time is an argument `now`, in one unit for clock, timeouts and leases. A call that ends the
-- process with `Fatalf` is the outcome `fatal` (Logging says for which levels it does), an error that
-- is returned is `err`; I/O errors of the stores, which are fatal, do not occur. Response channels go
-- by numbers. Go maps are association lists in the order of which their loops run.
--
-- Numbers: uint64 arithmetic wraps around at 2^64 where the code adds or subtracts. The theorems
-- about logs assume that indices stay below 2^64. Loops are structural recursion: on the list of
-- entries, on the index that falls to 0 (`conflict_start`), or on the number of indices that are left
-- (`collect_entries`, `commit_scan`, `restore_entries`), which is the distance to the end of the log.
-- The loop of `Replay` has fuel: one round more than there are bytes, since each entry takes some.
--
-- Not modelled: errors of the file system, but for the one that `RemoveTmpFiles` makes itself, and crashes in the midst of a rename; the server of gRPC;
-- the test cluster, which is support for tests. In the cluster, what other nodes have sent besides
-- vote requests, so that nothing is said there about the logs of different nodes. The state machine, protobuf and JSON, the codec of
-- configurations and the calls over the network are parameters.
pub mod Prelude
pub mod Log
pub mod Disk
pub mod StateStorage
pub mod SnapshotStorage
pub mod Logging
pub mod Options
pub mod Lifecycle
pub mod Configuration
pub mod Lease
pub mod Future
pub mod Event
pub mod Operation
pub mod Requests
pub mod Transport
pub mod Raft
pub mod Random
pub mod Cluster
pub mod Examples
