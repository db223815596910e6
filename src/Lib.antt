-- ===== src/Lib.antt =====
-- Chaosplane: an operator for chaos experiments on Kubernetes. Users create ChaosExperiment objects;
-- the controller starts the action of each through an executor, watches probes and abort conditions
-- while it runs, and rolls the action back. A ChaosWorkflow runs experiments in the order of their
-- dependencies, and an admission webhook holds new experiments against BlastRadiusPolicy objects.
--
-- The files and the code:
--
-- Prelude and its children: Boolean tests, lists, texts with the verbs of fmt, Go's int64 arithmetic as
--   integers with the wrap-around written out, and maps as association lists.
-- Api (api/v1alpha1): the records and enums. Api.Experiment is chaosexperiment_types.go, Api.Policy is
--   blastradius_types.go. An enum has a constructor for each documented value, one for the empty text
--   where the code treats it apart, and `unknown` for any other text.
-- Probe (internal/probe/probe.go): NewProbe is `new_probe`, RunAll is `run_all`. What a probe's Run
--   answers is an argument; `run_all` also gives the list of the probes that were run.
-- Executor (internal/executor/registry.go, executor.go): the registry. An executor is the answers of its
--   three methods.
-- Webhook (internal/webhook/blastradius_webhook.go): Policy has evaluatePolicyAt, policyMatchesExperiment
--   and the checks, each a function of its name in snake case; Windows has checkTimeWindows and
--   isInTimeWindow, Cron has cronMatches and its parts, Glob has matchGlob with filepath.Match, and
--   Handle has Handle. What `time` knows of zones and durations, and the selectors of metav1, are
--   arguments. Refusals, Verdicts, Openings, Parts and Fields hold the proofs. Prelude.Codes has what
--   the webhook uses of strings and strconv.
-- Controller.Pass: one pass of a reconciler. The API server, the executors and the event recorder are
--   outside the repository: a pass is the list of calls it makes of them, each with the answer that the
--   environment `Env` gives, of the probes that it runs, and what Reconcile returns. An execution and a
--   rollback carry the action type that their executor was found under (`find_executor`).
-- Controller.Conditions: setCondition on the list of conditions.
-- Controller.Experiment (internal/controller/experiment_controller.go): Status has setCondition,
--   setFailed, setCompleted, setAborted and transitionToCompleting; Starting has reconcilePending and
--   reconcileSteadyStateChecking; Running has reconcileRunning, handleAbort and checkAbortConditions;
--   Finishing has reconcileCompleting, reconcileRecovering and handleDeletion; Reconcile has Reconcile.
--   A method is the function of its name in snake case; parts of a long one have names of their own.
--   Trace says what effects leave behind, and History has the sequences of passes, with what they rely
--   on in the API server and its cache (`Serves`): that the phase of a status that was written, whether
--   that has a start time, and a mark that was patched in, are what the next pass reads.
-- Controller.Workflow (internal/controller/workflow_controller.go): Graph has buildDAG, TopologicalSort,
--   ReadyTemplates, findTemplate and FormatProgress; Conditions evaluateCondition and the retry count;
--   Status setWorkflowCondition, setFailed, setCompleted, setAborted (`fail_workflow` and so on) and
--   reconcilePaused; Templates executeTemplate, Progress checkTemplateProgress, Running reconcileRunning,
--   Reconcile reconcilePending, handleAbort and Reconcile. `World` has what a pass takes from outside,
--   the order of each loop over a map included. Sorting, Readiness, Building, Aborts, Loops and
--   Phases hold the proofs.
-- Daemon (internal/daemon): Store has execution.go; Commands has the argument lists of syscmd.go, Host
--   its operations and those of ebpf/manager.go; Server has the state of server.go, the requests and
--   resolveTarget and resolvePodTarget, Handlers the five Exec methods, Cancel has CancelChaos and
--   GetChaosStatus. A method is the function of its name in snake case, from server to server. The host
--   is a state of any type, and what a command does to it is the argument `Runner`; `Accountable` is
--   what iptables and tc do to the number of rules and root qdiscs, when they succeed and when they
--   fail, and `Dependable` adds that to take back what is there does not fail. Claims, Targets,
--   Outstanding, Booking, Records, PodBooking, Undoing, Answers, History, Leftover and NodeLeak hold
--   the proofs; History has the sequences of calls, and Leftover the cancellations that fail. Netns has internal/daemon/netns, and Pairing its proofs.
-- Executors (internal/executor/network, pod, stress and node/cpu_stress.go): Pods has ResolveTargetPods,
--   ParseParameters and ContainerID; Network has baseNetworkExecutor, where `Daemons` is what the gRPC
--   clients do, and Kinds the executors over it with Validate. Fleet puts the daemons of Daemon behind
--   the clients: each endpoint has a server, and a call of a node that is not reached (`Links`) is an error. Recording has the loop, the Rollback
--   and ResolveTargetNodes that the executors of pod, stress and node/cpu_stress.go share, Stress their
--   requests, and Family the executors with Validate. Steps, Calls, Debts, Restoring, Forgetting and
--   Stopping hold the proofs.
-- Examples: concrete objects, an API server that meets `Serves`, tests, and each theorem at an input.
--
-- Bounds: every loop is a recursion over its list or over the rounds that it has. The decimal digits of
-- `n` take `n + 1` rounds, and a number has fewer digits than that. A glob and a class are read with their
-- length and one as fuel, and each piece takes a character at least. The queue of TopologicalSort has its
-- length and the number of nodes as fuel: a name enters it when the in-degree of its node becomes zero,
-- once. Times and durations are integers of nanoseconds; a difference of times saturates, a difference
-- and a double of durations wrap around, as in Go.
--
-- Not modelled: the text of events and the log; letters beyond ASCII in EqualFold; the order of Go's maps
-- in the webhook, where an association list has one; a read from the cache that is behind the writes; JSON, and the way that warnings are marshalled; a
-- clock that moves within one pass of a controller; the deadline of a command of the daemon; a gRPC
-- call whose answer is lost after the daemon has served it; internal/daemon/ebpf/programs.go; the agent,
-- the executors that are not named above and the command line.

mod Prelude
pub mod Api
pub mod Probe
pub mod Executor
pub mod Controller
pub mod Webhook
pub mod Daemon
pub mod Executors
mod Examples
