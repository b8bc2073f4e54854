-- ===== src/Lib.antt =====
-- Verification of nyanpasu-service, a service that runs a Clash core.
-- The core manager (crates/nyanpasu-core-manager) launches one core process after another, each
-- under a new epoch. An instance supervises one process: its monitor loop turns supervisor events
-- and probe results into an instance status, which the manager forwards into the one snapshot that
-- it publishes. A process whose death cannot be confirmed is quarantined. What a core prints is
-- parsed into bounded log frames, and archived in files that rotate. The service shows the manager's
-- snapshots, and the answers to its requests, to its clients.
--
-- The files, with the code that they model (paths under crates/nyanpasu-core-manager/src unless
-- another crate is named):
--   Prelude             library names, tests into Bool, lists measured by native numbers
--   Text                strings as lists of bytes, with the cuts of log.rs and cap_detail of
--                       health/mod.rs; Text/Boundary and Text/Utf8 are about them, Text/Decimal
--                       prints a number
--   Kind, State, Error, Spec
--                       ClashCoreKind of nyanpasu-core-metadata, state.rs, error.rs and spec.rs
--   Capability          feature.rs and feature/clash.rs of nyanpasu-core-metadata, and the
--                       resolution in capability.rs; proofs in Capability/Enabled
--   Health              HealthPolicy and HealthTracker of health/mod.rs; proofs in Health/Streaks
--                       and Health/Streaks/Grace
--   Log/Frame           LogFrame of nyanpasu-core-metadata, Pending, append and bound_frame of
--                       log.rs; proofs in Log/Frame/Caps
--   Log/Ansi            strip_ansi; proofs in Log/Ansi/Clean
--   Log/Parser          LogParser: push_at, emit and finish; proofs in Log/Parser/Bounds and
--                       Log/Parser/Records, with Records/Stamps and Records/Order
--   Log/Summary         error_summary and format_tail; proofs in Log/Summary/Latest
--   Log/Logfmt, Log/Headers
--                       scan_logfmt, and parse_level and parse_mihomo over it; proofs in
--                       Log/Logfmt/Inverse, with Log/Logfmt/Inverse/Bare, and
--                       Log/Headers/Fields
--   Instance/Monitor    monitor_loop of instance.rs: Data is its locals and events, Observe is
--                       apply_probe_observation and drain_probe_observations, Turn the arms of the
--                       select!; proofs in Observe/Readiness and Turn/Lifecycle
--   Instance/Stop       stop_and_confirm_dead; proofs in Instance/Stop/Confirmed
--   Manager/Ctrl        Inner, Ctrl, Active and QuarantinedEpoch of manager/mod.rs
--   Manager/Publish     manager/publish.rs; proofs in Manager/Publish/Epochs
--   Manager/Quarantine  manager/quarantine.rs; proofs in
--                       Manager/Quarantine/Uncertain and Manager/Quarantine/Published
--   Manager/Ownership   which epochs the manager answers for, with the lemmas of its operations
--   Manager/Launch      PreparedLaunch, next_epoch, install_switched and spawn_replacement of
--                       manager/switching.rs, republish_retained
--   Manager/Lifecycle, Manager/Stopping
--                       start, and stop and shutdown, of manager/mod.rs
--   Manager/Switching   restart and switch of manager/switching.rs, hard and graceful
--   Manager/Apply       apply_config of manager/apply.rs; Manager/Apply/InPlace is
--                       reconcile_in_place and patch_and_verify; Manager/Apply/Outcome is about
--                       the answers, with Manager/Apply/Report and Manager/Apply/Compensated
--   Manager/Runs        sequences of these operations with the forwarder of manager/mod.rs. The
--                       file Owned below each of them is about ownership
--   LogSink             log_sink.rs: Names is file_name and file_seq, Retention prune_targets,
--                       Writer the rotating writer, Drain the loop run and drain; proofs in
--                       Names/Inverse, Retention/Newest, Writer/Bounded, with
--                       Writer/Bounded/Batches, Writer/Active,
--                       Drain/Taken and Drain/Bounded
--   Config/Fields, Config/Changes
--                       the field tables and classify of config/mihomo.rs; proofs in
--                       Config/Changes/Denied
--   Bridge              manager_bridge.rs of crates/nyanpasu-service-runtime/src/server: Wire is the
--                       types of nyanpasu_ipc/src/api, Project the projections onto them, Events
--                       status_bridge; proofs in Project/Faithful and Events/Legacy
--
-- Conventions. A string is the list of its bytes. A clock reading, and the answer of code outside
-- the repository (the supervisor, the pid-file reaper) or of the file system, is an argument; an
-- error of another crate is carried as its message, and the Display of the errors is the
-- parameter render, and the semver crate's test of a requirement and the parser of version
-- banners are the parameters matches and parse. A HashSet-like EnumSet is a list. Counters are
-- u32 or u64 as in the source: those of the health tracker and of the runs saturate, the epoch
-- and the file numbers of the log sink wrap. Every loop is structural recursion; only the printing of a number runs on fuel, the
-- number and one more, which is enough since each digit divides by ten. The manager's operations
-- run under its lock, so each is one function, and a run is a list of them with status changes of
-- the current instance in between. The calls of the file system that the log sink makes are
-- numbered, and an oracle says which fail; what comes into its channel is given by turn, and what
-- a turn leaves unread is read by the next one.
--
-- Not modelled: the header parsers of log.rs other than mihomo's, which are a parameter of
-- Log/Parser; the cache of probed versions; the preparation of a launch, the differences and
-- patches of documents, and the runtime store, whose answers the manager's operations and classify
-- take; the probe driver's tasks and timers; the clients of the cores' API (crates/clash-api), the
-- requests, clients and servers of the IPC contract (nyanpasu_ipc), and the service around the
-- manager (crates/nyanpasu-service-runtime) but for its bridge, which are I/O for the greater part.
pub mod Prelude
pub mod Text
pub mod Kind
pub mod State
pub mod Error
pub mod Spec
pub mod Health
pub mod Log
pub mod LogSink
pub mod Instance
pub mod Manager
pub mod Config
pub mod Bridge
pub mod Capability
