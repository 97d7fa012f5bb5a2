-- ===== src/Lib.antt =====
-- node-drain: a Kubernetes controller that cordons, drains, reboots and releases nodes that
-- wait in a queue, with plugins that check and prepare each drain.
--
-- The parts, the files that model them, and the code (paths from the repository's root):
--   Api            api/v1/node_types.go: the custom resource Node, its desired and current state.
--   Controller     internal/controller/node_controller.go: Reconcile. Objects holds the two objects
--                  of a run and the patches (setDrained, setCurrentState, setState, setUnschedulable,
--                  setBootID, createNewNode); Undrain, Drain, Queue and Work hold the functions of
--                  these names; Controller itself puts them together as Reconcile does. Setup holds
--                  NewNodeReconciler, SetupWithManager and NewRebootManager.
--   DrainManager   internal/utils/drain-manager.go: health of the cluster, the plugins' answers and
--                  their hooks.
--                  Loading holds NewDrainManager, which starts the plugins and fills its tables.
--   RebootManager  internal/utils/reboot-manager.go: the pods that test for a reboot and reboot.
--   PodUtils       internal/utils/utils.go.
--   Settings       the configuration and the flags that the managers read.
--   Webhook        internal/webhook/v1/node_webhook.go: the defaults and the validation of a Node.
--   Config         internal/config/config.go: the loggers' levels, resources, and the files loaded.
--                  Config/Environment holds the transformation of the environment's variables.
--   Logging        internal/utils/hclog.go, and pluginOutputMonitor of drain-manager.go.
--                  Logging/Loggers holds internal/config/logger.go, Logging/Wrapper the adapter,
--                  and Logging/Arguments its convertToZapAny.
--   Rpc            api/plugins: the client and the server of the calls to a plugin.
--   Start          cmd/main.go: the flags, the options of the servers, and the steps of the start.
--   Cluster        what the program calls: the Kubernetes API, RunNodeDrain, the plugins, the clock.
--   Base           shared names, errors, code with state, and the rules for its invariants.
--   Examples       test data and the theorems at concrete inputs.
--
-- How they interact: a run of Reconcile reads the two objects of a node, asks the drain manager and
-- the reboot manager, and patches the objects. Each call is recorded with its reply in a trace; the
-- replies are arbitrary functions of the trace so far (`Env`), so every failure and every change by
-- others between two calls is covered. State and errors are explicit: code is a function from a state
-- to a result and the next state, and what was changed before an error stays changed. A part of a
-- function that may return early gives `some` result. Controller/Triple and Cluster/Hoare hold pre-
-- and postconditions. Controller/Walk says which properties of the trace, and of the run's copy of the
-- node beside it, a whole run keeps; Controller/Guards and Controller/Exclusion apply this, and
-- Controller/Diagram follows the states through the parts of a run. Controller/Exclusion takes runs
-- one after the other: controller-runtime starts one worker for a controller unless it is told
-- otherwise, and several controllers elect a leader. There the server's reads are taken not to be
-- stale, which the cache of the manager's client does not promise. Exclusion/Refines states what the
-- controller promises of a cluster as a relation of steps. Controller/Progress follows a node through
-- the runs in which no call fails; Controller/Remembering says that on a server that answers as asked
-- the next run reads what the last one left, and Progress/Settling and Progress/Reviving put such runs
-- one after the other as controller-runtime does, which runs Reconcile again where a run asks for it
-- or fails. Controller/Requeue asks when the next run is due, and
-- Controller/Required what a run does where no reboot is required.
--
-- Loops are recursion on lists, so no fuel is needed; the number of runs in Progress/Settling is a
-- bound that the theorems show to be enough. PollUntilContextTimeout is a parameter; where a
-- theorem needs it, the hypothesis is that it does no more than call its condition. The order of a
-- `range` over the map of plugins is the order of a list that the theorems leave open. Times are
-- natural numbers of nanoseconds, `time.Time{}` is zero.
--
-- Not modelled: gRPC, go-plugin and koanf, which are parameters, zap's encoders and its `Build`,
-- unicode.ToLower and the scanner of a plugin's output, generated code, the example of a plugin, and
-- log output, which no code reads back. The texts of events are left out; their kind and subject are
-- kept.
pub mod Base
pub mod Api
pub mod Cluster
pub mod Settings
pub mod DrainManager
pub mod PodUtils
pub mod RebootManager
pub mod Controller
pub mod Webhook
pub mod Config
pub mod Logging
pub mod Rpc
pub mod Start
pub mod Examples
