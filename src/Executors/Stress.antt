-- ===== src/Executors/Stress.antt =====
-- The executors over the recording loop: internal/executor/pod (cpu_stress.go, memory_stress.go,
-- io_stress.go, dns_error.go, http_abort.go, http_delay.go), internal/executor/stress (cpu.go,
-- memory.go) and internal/executor/node/cpu_stress.go.
use chaosplane.Prelude.{
  ◌^◌, String, Option, none, some, List, [], ◌∷◌, ◌++◌, map, ◌==◌, string_eq, if◌then◌else◌, ◌&&◌,
  Dict, lookup, text_at, concat, quote, int_eq, ℤ, pos, negsuc, ltb_ℤ,
}
use chaosplane.Prelude.Codes.{codes, atoi, atoi_nearest}
use chaosplane.Api.Meta.{Error, Result, ok, err}
use chaosplane.Api.Results.{◌>>=◌, wrap}
use chaosplane.Api.Experiment.{ChaosExperiment}
use chaosplane.Daemon.Server.{Response, StressChaosRequest}
use chaosplane.Executors.Pods.{Pod, Lookups, resolve_target_pods, parse_parameters, container_id}
use chaosplane.Executors.Recording.{
  DaemonClient, Recording, Site, exec_sites, rollback_recorded, NodeLookups, resolve_target_nodes,
}

-- The parameters that a request copies, an empty text for one that is missing, and those that name the
-- pod.
abbrev pub copied : Dict String → List String → Dict String
copied params [] = []
copied params (key ∷ keys) = (key, text_at key params) ∷ copied params keys

abbrev pub stress_request : String → String → Dict String → StressChaosRequest
stress_request uid stressor params = record {
  experiment_id = uid;
  stressor_type = stressor;
  parameters = params;
}

abbrev pub pod_name_only : Pod → Dict String
pod_name_only p = ("podName", p.name) ∷ ("podNamespace", p.namespace) ∷ []

abbrev pub pod_identity : Pod → Dict String
pod_identity p =
    ("podName", p.name)
    ∷ ("podNamespace", p.namespace)
    ∷ ("containerId", container_id p.container_ids)
    ∷ ("nodeName", p.node_name)
    ∷ []

abbrev pub pod_site : {W : Type 0} → Pod → (String → W → W × Result Response) → Site W
pod_site p call = record {
  node = p.node_name;
  place = concat ("pod " ∷ p.namespace ∷ "/" ∷ p.name ∷ []);
  brief = concat (p.namespace ∷ "/" ∷ p.name ∷ []);
  call = call;
}

abbrev pub node_site : {W : Type 0} → String → (String → W → W × Result Response) → Site W
node_site n call = record {
  node = n;
  place = concat ("node " ∷ n ∷ []);
  brief = concat ("node " ∷ n ∷ []);
  call = call;
}

abbrev pub bad_port : String → String → String → Error
bad_port prefix v why = concat (
    prefix
    ∷ ": invalid port "
    ∷ quote v
    ∷ ": strconv.ParseInt: parsing "
    ∷ quote v
    ∷ ": "
    ∷ why
    ∷ [])

-- strconv.ParseInt(v, 10, 32) with the executor's words around its error.
unfoldable pub parse_port : String → String → Result ℤ
parse_port prefix v = elim (atoi (codes v)) [
  | none ↦ err (
      bad_port prefix v
        (if atoi_nearest (codes v) == pos 0 then "invalid syntax" else "value out of range"))
  | some n ↦
      if ltb_ℤ n (pos (2 ^ 31)) && ltb_ℤ (negsuc (2 ^ 31)) n
      then ok n
      else err (bad_port prefix v "value out of range")
]

-- The port of an HTTP fault, 0 where none is given.
unfoldable pub port_of : String → Dict String → Result ℤ
unfolding parse_port
port_of prefix params = elim (lookup "port" params) [
  | none ↦ ok (pos 0)
  | some v ↦ parse_port prefix v
]

-- A chain that fails before any daemon is called leaves the state.
abbrev pub with_sites :
    {W : Type 0}
    → Result (List (Site W))
    → (List (Site W) → Recording W → Recording W × Option Error)
    → Recording W
    → Recording W × Option Error
with_sites (err e) go b = (b, some e)
with_sites (ok sites) go b = go sites b

module _ {W : Type 0} (client : DaemonClient W) (api : Lookups) where
  -- The targets and the parameters, then a site for each pod.
  unfoldable pub execute_on_pods :
      String
      → (Dict String → Result (Pod → Site W))
      → ChaosExperiment
      → Recording W
      → Recording W × Option Error
  execute_on_pods prefix plan exp =
      with_sites
        (wrap (prefix ∷ ": resolve targets" ∷ []) (resolve_target_pods api exp.spec.target)
          >>= λ pods. wrap (prefix ∷ []) (parse_parameters api exp) >>= λ params.
              plan params >>= λ site. ok (map site pods))
        (exec_sites prefix exp.meta.uid client)

  -- One of the stressors, for a pod.
  unfoldable pub pod_stress :
      String
      → String
      → List String
      → (Pod → Dict String)
      → ChaosExperiment
      → Recording W
      → Recording W × Option Error
  unfolding execute_on_pods
  pod_stress prefix stressor keys identity exp =
      execute_on_pods prefix
        (λ params. ok λ p. pod_site p λ endpoint.
          client.exec_stress_chaos endpoint
            (stress_request exp.meta.uid stressor (copied params keys ++ identity p)))
        exp

  unfoldable pub pod_cpu_stress : ChaosExperiment → Recording W → Recording W × Option Error
  unfolding pod_stress
  pod_cpu_stress =
      pod_stress "pod-cpu-stress" "cpu" ("workers" ∷ "load" ∷ "duration" ∷ []) pod_identity

  unfoldable pub pod_memory_stress : ChaosExperiment → Recording W → Recording W × Option Error
  unfolding pod_stress
  pod_memory_stress =
      pod_stress "pod-memory-stress" "memory" ("workers" ∷ "size" ∷ "duration" ∷ []) pod_identity

  unfoldable pub pod_io_stress : ChaosExperiment → Recording W → Recording W × Option Error
  unfolding pod_stress
  pod_io_stress =
      pod_stress "pod-io-stress" "io" ("workers" ∷ "size" ∷ "duration" ∷ []) pod_name_only

  unfoldable pub pod_dns_error : ChaosExperiment → Recording W → Recording W × Option Error
  unfolding execute_on_pods
  pod_dns_error exp =
      execute_on_pods "pod-dns-error"
        (λ params. ok λ p. pod_site p λ endpoint. client.exec_dns_chaos endpoint (record {
          experiment_id = exp.meta.uid;
          action = "error";
          parameters = copied params ("domains" ∷ "errorType" ∷ []) ++ pod_identity p;
        }))
        exp

  unfoldable pub pod_http :
      String → String → String → ChaosExperiment → Recording W → Recording W × Option Error
  unfolding execute_on_pods port_of
  pod_http prefix action key exp =
      execute_on_pods prefix
        (λ params. port_of prefix params >>= λ port. ok λ p. pod_site p λ endpoint.
          client.exec_http_chaos endpoint (record {
            experiment_id = exp.meta.uid;
            action = action;
            port = port;
            parameters = copied params (key ∷ []) ++ pod_identity p;
          }))
        exp

  unfoldable pub pod_http_abort : ChaosExperiment → Recording W → Recording W × Option Error
  unfolding pod_http
  pod_http_abort = pod_http "pod-http-abort" "abort" "statusCode"

  unfoldable pub pod_http_delay : ChaosExperiment → Recording W → Recording W × Option Error
  unfolding pod_http
  pod_http_delay = pod_http "pod-http-delay" "delay" "delay"

  -- A stressor on whole nodes.
  unfoldable pub node_stress :
      NodeLookups
      → String
      → String
      → List String
      → ChaosExperiment
      → Recording W
      → Recording W × Option Error
  node_stress nodes prefix stressor keys exp =
      with_sites
        (wrap (prefix ∷ ": resolve targets" ∷ []) (resolve_target_nodes api nodes exp.spec.target)
          >>= λ names. wrap (prefix ∷ []) (parse_parameters api exp) >>= λ params. ok (
              map
                (λ n. node_site n λ endpoint.
                  client.exec_stress_chaos endpoint
                    (stress_request exp.meta.uid stressor (copied params keys)))
                names))
        (exec_sites prefix exp.meta.uid client)

  unfoldable pub stress_cpu :
      NodeLookups → ChaosExperiment → Recording W → Recording W × Option Error
  unfolding node_stress
  stress_cpu nodes = node_stress nodes "stress-cpu" "cpu" ("workers" ∷ "load" ∷ "duration" ∷ [])

  unfoldable pub stress_memory :
      NodeLookups → ChaosExperiment → Recording W → Recording W × Option Error
  unfolding node_stress
  stress_memory nodes =
      node_stress nodes "stress-memory" "memory" ("workers" ∷ "size" ∷ "duration" ∷ [])

  unfoldable pub node_cpu_stress :
      NodeLookups → ChaosExperiment → Recording W → Recording W × Option Error
  unfolding node_stress
  node_cpu_stress nodes =
      node_stress nodes "node-cpu-stress" "cpu" ("workers" ∷ "load" ∷ "duration" ∷ [])

-- Rollback of each of them.
unfoldable pub roll_back :
    {W : Type 0}
    → DaemonClient W
    → String
    → ChaosExperiment
    → Recording W
    → Recording W × Option Error
unfolding rollback_recorded
roll_back client prefix exp = rollback_recorded prefix exp.meta.uid client
