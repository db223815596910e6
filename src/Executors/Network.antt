-- ===== src/Executors/Network.antt =====
-- internal/executor/network/common.go: baseNetworkExecutor. The mutex makes each change of the records
-- one step.
use chaosplane.Prelude.{
  String, Option, none, some, List, [], ◌∷◌, ◌++◌, ◌==◌, string_eq, if◌then◌else◌, Dict, lookup,
  insert, remove, concat,
}
use chaosplane.Prelude.Trim.{join_words}
use chaosplane.Api.Meta.{Error, Result, ok, err}
use chaosplane.Api.Experiment.{ChaosExperiment}
use chaosplane.Daemon.Server.{NetworkChaosRequest, Response}
use chaosplane.Daemon.Cancel.{CancelResponse}
use chaosplane.Executors.Pods.{
  Pod, Lookups, resolve_target_pods, resolve_daemon_endpoint, container_id,
}

-- What a daemon client does, in an unknown state `W` of the daemons: the factory, and two of the calls.
pub record Daemons (W : Type 0) : Type 0 where
  pub dial : String → Option Error
  pub exec_network_chaos : String → NetworkChaosRequest → W → W × Result Response
  pub cancel_chaos : String → String → W → W × Result CancelResponse

pub record ExecutionRecord : Type 0 where
  pub endpoint : String
  pub execution_id : String

-- executionIDs of the executor, and the daemons.
pub record Base (W : Type 0) : Type 0 where
  pub execution_ids : Dict (List ExecutionRecord)
  pub daemons : W

unfoldable pub records_of : String → Dict (List ExecutionRecord) → List ExecutionRecord
records_of uid m = elim (lookup uid m) [ none ↦ [] | some records ↦ records ]

unfoldable pub store_execution :
    String → String → String → Dict (List ExecutionRecord) → Dict (List ExecutionRecord)
unfolding records_of
store_execution uid endpoint id m =
    insert uid (records_of uid m ++ record { endpoint = endpoint; execution_id = id } ∷ []) m

-- The answer of CancelChaos, as an error or none.
unfoldable pub cancel_error : String → Result CancelResponse → Option Error
cancel_error id (err e) = some (concat ("cancel " ∷ id ∷ ": " ∷ e ∷ []))
cancel_error id (ok resp) =
    if resp.success then none else some (concat ("cancel " ∷ id ∷ ": " ∷ resp.message ∷ []))

abbrev pub with_error : Option Error → List Error → List Error
with_error none es = es
with_error (some e) es = e ∷ es

abbrev pub rollback_error : List Error → Option Error
rollback_error [] = none
rollback_error (e ∷ es) = some (concat ("rollback errors: [" ∷ join_words (e ∷ es) ∷ "]" ∷ []))

module _ {W : Type 0} (rpc : Daemons W) where
  unfoldable pub cancel_one : ExecutionRecord → W → W × Option Error
  unfolding cancel_error
  cancel_one rec w = elim (rpc.dial rec.endpoint) [
    | some e ↦ (w, some (concat ("daemon client for " ∷ rec.endpoint ∷ ": " ∷ e ∷ [])))
    | none ↦
        let (next, answer) = rpc.cancel_chaos rec.endpoint rec.execution_id w in
        (next, cancel_error rec.execution_id answer)
  ]

  -- Every record is tried, and the errors are collected.
  unfoldable pub cancel_all : List ExecutionRecord → W → W × List Error
  unfolding cancel_one
  cancel_all [] w = (w, [])
  cancel_all (rec ∷ recs) w =
      let (next, failure) = cancel_one rec w in
      let (last, failures) = cancel_all recs next in (last, with_error failure failures)

  unfoldable pub rollback_executions : String → Base W → Base W × Option Error
  unfolding records_of cancel_all
  rollback_executions uid b =
      let (w, failures) = cancel_all (records_of uid b.execution_ids) b.daemons in
      (record { execution_ids = remove uid b.execution_ids; daemons = w }, rollback_error failures)

  module _ (uid action prefix : String) (params : Dict String) where
    unfoldable pub network_request : Pod → NetworkChaosRequest
    unfolding container_id
    network_request p = record {
      experiment_id = uid;
      target_iface = "";
      action = action;
      parameters = params;
      pod_name = p.name;
      namespace = p.namespace;
      container_id = container_id p.container_ids;
      node_name = p.node_name;
    }

    -- After the call of a pod's daemon.
    unfoldable pub recorded : Pod → Base W → W × Result Response → Base W × Option Error
    unfolding store_execution
    recorded p b (w, err e) = (
      record b { daemons = w },
      some (concat (prefix ∷ ": exec on pod " ∷ p.namespace ∷ "/" ∷ p.name ∷ ": " ∷ e ∷ [])),
    )
    recorded p b (w, ok resp) =
        if resp.success
        then (
          record {
            execution_ids =
                store_execution uid (resolve_daemon_endpoint p.node_name) resp.execution_id
                  b.execution_ids;
            daemons = w;
          },
          none,
        )
        else (
          record b { daemons = w },
          some (
              concat (
                prefix ∷ ": daemon failure for " ∷ p.namespace ∷ "/" ∷ p.name ∷ ": " ∷ resp.message
                ∷ [])),
        )

    unfoldable pub exec_on_pod : Pod → Base W → Base W × Option Error
    unfolding network_request recorded
    exec_on_pod p b = elim (rpc.dial (resolve_daemon_endpoint p.node_name)) [
      | some e ↦
          (b, some (concat (prefix ∷ ": daemon client for node " ∷ p.node_name ∷ ": " ∷ e ∷ [])))
      | none ↦ recorded p b (
          rpc.exec_network_chaos (resolve_daemon_endpoint p.node_name) (network_request p)
            b.daemons)
    ]

    -- The first error ends the loop.
    unfoldable pub exec_on_pods : List Pod → Base W → Base W × Option Error
    exec_on_pods [] b = (b, none)
    exec_on_pods (p ∷ ps) b =
        let (next, failure) = exec_on_pod p b in
        elim failure [ some e ↦ (next, some e) | none ↦ exec_on_pods ps next ]

  -- execNetworkChaos
  unfoldable pub exec_network :
      Lookups → ChaosExperiment → String → Dict String → String → Base W → Base W × Option Error
  unfolding exec_on_pods
  exec_network api exp action params prefix b = elim (resolve_target_pods api exp.spec.target) [
    | err e ↦ (b, some (concat (prefix ∷ ": resolve targets: " ∷ e ∷ [])))
    | ok pods ↦ exec_on_pods exp.meta.uid action prefix params pods b
  ]

unfoldable pub validate_target : ChaosExperiment → String → Option Error
validate_target exp prefix =
    if exp.spec.target.namespace == ""
    then some (concat (prefix ∷ ": target namespace is required" ∷ []))
    else elim exp.spec.target.label_selector [
      | some _ ↦ none
      | none ↦ elim exp.spec.target.names [
        | name ∷ names ↦ none
        | [] ↦ some (concat (prefix ∷ ": target must specify names or labelSelector" ∷ []))
      ]
    ]
