-- ===== src/Executors/Recording.antt =====
-- The executors of internal/executor/pod, stress and node that ask a daemon per target and record its
-- execution: their common loop, Rollback and checks of the target. The mutex makes each change of the
-- records one step.
use chaosplane.Prelude.{
  String, Option, none, some, List, [], ◌∷◌, ◌++◌, string_eq, if◌then◌else◌, Dict, lookup, insert,
  remove, concat,
}
use chaosplane.Api.Meta.{Error, Result, ok, err, LabelSelector}
use chaosplane.Api.Results.{◌>>=◌, wrap}
use chaosplane.Api.Experiment.{ChaosExperiment, TargetSpec}
use chaosplane.Daemon.Server.{
  Response, StressChaosRequest, DnsChaosRequest, HttpChaosRequest, NodeChaosRequest,
}
use chaosplane.Daemon.Cancel.{CancelResponse}
use chaosplane.Executors.Pods.{Lookups, resolve_daemon_endpoint}

-- What a daemon client does, in an unknown state `W` of the daemons: the factory, and the calls.
pub record DaemonClient (W : Type 0) : Type 0 where
  pub dial : String → Option Error
  pub exec_stress_chaos : String → StressChaosRequest → W → W × Result Response
  pub exec_dns_chaos : String → DnsChaosRequest → W → W × Result Response
  pub exec_http_chaos : String → HttpChaosRequest → W → W × Result Response
  pub exec_node_chaos : String → NodeChaosRequest → W → W × Result Response
  pub cancel_chaos : String → String → W → W × Result CancelResponse

pub record NodeExecution : Type 0 where
  pub node_name : String
  pub execution_id : String

pub record Recording (W : Type 0) : Type 0 where
  pub execution_ids : Dict (List NodeExecution)
  pub daemons : W

-- A target: its node, how the messages name it, and the call that is made for it at an endpoint.
pub record Site (W : Type 0) : Type 0 where
  pub node : String
  pub place : String
  pub brief : String
  pub call : String → W → W × Result Response

unfoldable pub executions_of : String → Dict (List NodeExecution) → List NodeExecution
executions_of uid m = elim (lookup uid m) [ none ↦ [] | some execs ↦ execs ]

unfoldable pub note_execution :
    String → String → String → Dict (List NodeExecution) → Dict (List NodeExecution)
unfolding executions_of
note_execution uid node id m =
    insert uid (executions_of uid m ++ record { node_name = node; execution_id = id } ∷ []) m

module _ {W : Type 0} (prefix uid : String) where
  -- After the call for a target.
  unfoldable pub noted : Site W → Recording W → W × Result Response → Recording W × Option Error
  unfolding note_execution
  noted site b (w, err e) =
      (record b { daemons = w }, some (concat (prefix ∷ ": exec on " ∷ site.place ∷ ": " ∷ e ∷ [])))
  noted site b (w, ok resp) =
      if resp.success
      then (
        record {
          execution_ids = note_execution uid site.node resp.execution_id b.execution_ids;
          daemons = w;
        },
        none,
      )
      else (
        record b { daemons = w },
        some (concat (prefix ∷ ": daemon failure for " ∷ site.brief ∷ ": " ∷ resp.message ∷ [])),
      )

  module _ (client : DaemonClient W) where
    unfoldable pub exec_site : Site W → Recording W → Recording W × Option Error
    unfolding noted
    exec_site site b = elim (client.dial (resolve_daemon_endpoint site.node)) [
      | some e ↦
          (b, some (concat (prefix ∷ ": daemon client for node " ∷ site.node ∷ ": " ∷ e ∷ [])))
      | none ↦ noted site b (site.call (resolve_daemon_endpoint site.node) b.daemons)
    ]

    unfoldable pub exec_sites : List (Site W) → Recording W → Recording W × Option Error
    exec_sites [] b = (b, none)
    exec_sites (site ∷ sites) b =
        let (next, failure) = exec_site site b in
        elim failure [ some e ↦ (next, some e) | none ↦ exec_sites sites next ]

    -- Only the error of the call counts, not the answer.
    unfoldable pub cancel_execution : NodeExecution → W → W × Option Error
    cancel_execution ne w = elim (client.dial (resolve_daemon_endpoint ne.node_name)) [
      | some e ↦ (
        w,
        some
            (concat (prefix ∷ ": rollback daemon client for node " ∷ ne.node_name ∷ ": " ∷ e ∷ [])),
      )
      | none ↦
          let (next, answer) =
            client.cancel_chaos (resolve_daemon_endpoint ne.node_name) ne.execution_id w in
          elim answer [
            | ok resp ↦ (next, none)
            | err e ↦ (
              next,
              some (concat (prefix ∷ ": cancel execution " ∷ ne.execution_id ∷ ": " ∷ e ∷ [])),
            )
          ]
    ]

    -- The first error ends the loop.
    unfoldable pub cancel_in_turn : List NodeExecution → W → W × Option Error
    cancel_in_turn [] w = (w, none)
    cancel_in_turn (ne ∷ nes) w =
        let (next, failure) = cancel_execution ne w in
        elim failure [ some e ↦ (next, some e) | none ↦ cancel_in_turn nes next ]

    unfoldable pub rollback_recorded : Recording W → Recording W × Option Error
    unfolding executions_of cancel_in_turn
    rollback_recorded b =
        let (w, failure) = cancel_in_turn (executions_of uid b.execution_ids) b.daemons in
        (record { execution_ids = remove uid b.execution_ids; daemons = w }, failure)

-- Get and List of the API server for nodes, by name.
pub record NodeLookups : Type 0 where
  pub get_node : String → Result String
  pub list_nodes : LabelSelector → Result (List String)

module _ (api : Lookups) (nodes : NodeLookups) where
  unfoldable pub get_nodes : List String → Result (List String)
  get_nodes [] = ok []
  get_nodes (name ∷ names) = wrap ("failed to get node " ∷ name ∷ []) (nodes.get_node name) >>= λ n.
      get_nodes names >>= λ ns. ok (n ∷ ns)

  unfoldable pub matched_nodes : LabelSelector → List String → Result (List String)
  matched_nodes selector [] =
      err (concat ("no nodes matched selector " ∷ api.show_labels selector.match_labels ∷ []))
  matched_nodes selector (n ∷ ns) = ok (n ∷ ns)

  unfoldable pub select_nodes : LabelSelector → Result (List String)
  unfolding matched_nodes
  select_nodes selector = elim (api.selector_error selector) [
    | some e ↦ err (concat ("invalid label selector: " ∷ e ∷ []))
    | none ↦
        wrap ("failed to list nodes" ∷ []) (nodes.list_nodes selector) >>= matched_nodes selector
  ]

  unfoldable pub resolve_target_nodes : TargetSpec → Result (List String)
  unfolding get_nodes select_nodes
  resolve_target_nodes target = elim target.names [
    | name ∷ names ↦ get_nodes (name ∷ names)
    | [] ↦ elim target.label_selector [
      | some selector ↦ select_nodes selector
      | none ↦ err "target must specify either names or labelSelector"
    ]
  ]

unfoldable pub validate_names : ChaosExperiment → String → Option Error
validate_names exp prefix = elim exp.spec.target.label_selector [
  | some _ ↦ none
  | none ↦ elim exp.spec.target.names [
    | name ∷ names ↦ none
    | [] ↦ some (concat (prefix ∷ ": target must specify names or labelSelector" ∷ []))
  ]
]
