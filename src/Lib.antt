-- ===== src/Lib.antt =====
-- zpinit: models of an init and process supervisor, with the properties that make it correct.
--
-- zpinit runs as PID 1. It loads a directory of service files, starts one runner per replica of each
-- service in the order of the files, reaps every child, and changes its set of services on a reload, on
-- a change of the container's resources, or on a command. The models follow internal/, execproto/ and
-- cmd/zpctl/target.go.
--
-- Config (internal/config): Config.Types has the records Service, Globals and Config with their
--   methods; Config.Signal the tables of signal names with ParseSignal and SignalName;
--   Config.Replicas the replicas key (UnmarshalTOML) and ReplicaLogPath; Config.Defaults
--   applyGlobalDefaults and applyServiceDefaults; Config.Validate validateService, check by
--   check, and validate over the whole config; Config.Load the service files of a directory
--   (loadServices, loadServiceFile) and their listing (ScanServiceFiles), and in Directory Load
--   itself. The decoder of TOML and the texts of its errors are the parameter Decoder, and what a
--   directory holds the record Directory.
-- Resources (internal/resources): the Snapshot that the replica target is computed from, with
--   WithReserves. CPUs are thousandths in an integer, for the float64 of the code. Resources.Watcher
--   is the loop of watcher.go as a step on events, each with the time and with what Detect answers
--   then: the debounce of a changed value, the cooldown of inotify wakes, commits to subscribers.
-- Reaper (internal/reaper/reaper.go): SpawnTracked, Untrack, Reap and attributeOOM over an
--   association list for the map of tracked PIDs. The answers of wait4 and of the OOM detector are
--   lists that the environment gives; a channel is the number that it was made under, and a send on
--   it is an entry of the result.
-- Machine (internal/machine/oom.go): Machine.Oom has the records of the kernel log, the index of the
--   kills in them and their attribution to children; Records shows how a record is read, Attribution
--   what the index keeps.
-- Supervisor.Runner (internal/supervisor/runner.go): the state machine of one replica. State has the
--   record, Handlers handleStart, handleExit, recordFailure, backoffStep, handleStop and
--   handleStopKillTimeout, and Loop the select of Run as a step on events, which come in any order.
--   Run's two timers are fields of the record. The spawner, the clock and the jitter are the
--   parameter World, which may answer every event differently; spawns and signals are returned as
--   effects. The fuel of a run is its list of events. Waits has the checks of WaitBootResult,
--   WaitTerminal and WaitLeftTerminal over the states that a channel receives, Channel what an observer's
--   channel holds, and Waiting the whole calls: they subscribe, look at the state and take what is sent,
--   with events of the runner before the look and after it.
-- Supervisor.Equal and Supervisor.Diff (internal/supervisor/diff.go): servicesEqual, and computeDiff
--   from the running and the new services to what is added, removed, restarted and refused. The order
--   in which Go visits a map is a parameter, the list `visits`.
-- Supervisor.Registry (orchestrator.go, reload.go there): the registry of runners, its order, and the
--   registration of new ones. A pointer to a registered runner is its file and index. Supervisor.Reload is applyReloadDiff and Reload over it, in the phases of
--   the code: removals, the stops of restarts, then boots in the order of the files. Its children follow
--   the set of registered services through the phases and compare the end with a reload's request.
--   Supervisor.Scoped is ReloadScoped: the full diff, the part of it that the named files want, and the
--   config that results.
-- Supervisor.Boot, StopAll, Readiness and Watch (orchestrator.go and probe.go): boot and bootOne,
--   stopAll with stopRunnerGroup, waitReady and finishReadiness, the exit code and its watcher. What
--   boot meets at a runner, whether it is still registered among it, is the parameter Answers; what a stop leaves of a runner is the parameter
--   `after`; what the attempts of a probe take and answer is a sequence of Attempt, and the clock is
--   a number. The loop of waitReady runs on fuel: each round moves the clock by at least the interval,
--   so that one more unit than intervals fit before the deadline is enough.
-- Supervisor.Replica and Supervisor.Scale (replica.go and scale.go there): the target of an auto
--   service, the expansion of a service into replicas, and scaling up and down. The search for a free
--   index runs on one more unit of fuel than there are used indices, and finds one, since more numbers
--   than indices are tried.
-- Supervisor.Fanout (reload.go there): reloadOne, ReloadService and reloadAcrossGroups over what a reload
--   meets at each runner, the record Encounter, and OnResourceChange, which sets the environment,
--   rescales, and reloads the runners that subscribed.
-- Supervisor.Targets (control.go and status.go there, cmd/zpctl/target.go): expandTargets and
--   resolveTarget over the snapshot of the registry, the translation of supervisord's names, and its
--   names for states.
-- Execproto (execproto/proto.go): frames and the opening request of an exec over bytes as natural
--   numbers. A reader is the list of the bytes that it gives before its end; encoding/json is the
--   parameter Json, of which the round trip assumes that the request decodes to itself.
--
-- Integers are the native natural numbers, or ℤ over them where the source's int can be negative;
-- where the backoff doubles an int64, and where the kernel log's time becomes one, its wrap-around is
-- written out. Texts are strings, or lists of code points where the source maps or cuts them. Base has
-- the shared tests, lists, integers, texts and numbers; Samples runs the models on concrete data.
--
-- Not modelled: sockets, files, /proc and the kernel's answers, which are parameters; logging;
-- the verbs of the control socket around the operations that they call; the environment of a snapshot; detection of resources from cgroup files; cmd/zpinit,
-- doctor, entrypoint, service and vsockexec.
pub mod Base
pub mod Config
pub mod Resources
pub mod Execproto
pub mod Reaper
pub mod Supervisor
pub mod Machine
pub mod Samples
