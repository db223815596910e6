-- ===== src/Executors/Pods.antt =====
-- internal/executor/pod/common.go: the targets of an experiment, its parameters, and the container that
-- the daemon is told of. The API server and the JSON parser are arguments.
use Prim.Native.Char.{code}
use chaosplane.Prelude.{
  ℕ, String, Option, none, some, List, [], ◌∷◌, ◌==◌, string_eq, nat_eq, if◌then◌else◌, Dict,
  concat,
}
use chaosplane.Api.Meta.{Error, Result, ok, err, LabelSelector}
use chaosplane.Api.Results.{◌>>=◌, wrap}
use chaosplane.Api.Experiment.{ChaosExperiment, TargetSpec}

-- What is read of a pod; `container_ids` are those of its container statuses, in order.
pub record Pod : Type 0 where
  pub name : String
  pub namespace : String
  pub node_name : String
  pub container_ids : List String

-- Get and List of the API server for pods, LabelSelectorAsSelector, labels.Set.String, and the parser
-- of JSON objects of texts.
pub record Lookups : Type 0 where
  pub get_pod : String → String → Result Pod
  pub list_pods : String → LabelSelector → Result (List Pod)
  pub selector_error : LabelSelector → Option Error
  pub show_labels : Dict String → String
  pub unmarshal : String → Result (Dict String)

abbrev pub resolve_daemon_endpoint : String → String
resolve_daemon_endpoint node_name = concat (node_name ∷ ":50051" ∷ [])

module _ (api : Lookups) where
  unfoldable pub get_pods : String → List String → Result (List Pod)
  get_pods namespace [] = ok []
  get_pods namespace (name ∷ names) =
      wrap ("failed to get pod " ∷ namespace ∷ "/" ∷ name ∷ []) (api.get_pod namespace name)
      >>= λ p. get_pods namespace names >>= λ ps. ok (p ∷ ps)

  unfoldable pub matched_pods : String → LabelSelector → List Pod → Result (List Pod)
  matched_pods namespace selector [] = err (
      concat (
        "no pods matched selector "
        ∷ api.show_labels selector.match_labels
        ∷ " in namespace "
        ∷ namespace
        ∷ []))
  matched_pods namespace selector (p ∷ ps) = ok (p ∷ ps)

  unfoldable pub select_pods : String → LabelSelector → Result (List Pod)
  unfolding matched_pods
  select_pods namespace selector = elim (api.selector_error selector) [
    | some e ↦ err (concat ("invalid label selector: " ∷ e ∷ []))
    | none ↦
        wrap ("failed to list pods" ∷ []) (api.list_pods namespace selector)
        >>= matched_pods namespace selector
  ]

  unfoldable pub resolve_target_pods : TargetSpec → Result (List Pod)
  unfolding get_pods select_pods
  resolve_target_pods target = elim target.names [
    | name ∷ names ↦ get_pods target.namespace (name ∷ names)
    | [] ↦ elim target.label_selector [
      | some selector ↦ select_pods target.namespace selector
      | none ↦ err "target must specify either names or labelSelector"
    ]
  ]

  unfoldable pub parse_parameters : ChaosExperiment → Result (Dict String)
  parse_parameters exp =
      if exp.spec.action.parameters == ""
      then ok []
      else wrap ("failed to parse action parameters" ∷ [])
          (api.unmarshal exp.spec.action.parameters)

-- The rest of a text behind a character that it starts with.
abbrev pub behind : ℕ → String → Option String
behind d String.[] = none
behind d (String.◌∷◌ c s) = if code c == d then some s else none

-- The rest of a text that starts with `://`.
unfoldable pub behind_mark : String → Option String
behind_mark s = elim (behind b':' s) [
  | none ↦ none
  | some t ↦ elim (behind b'/' t) [ none ↦ none | some u ↦ behind b'/' u ]
]

-- The text behind the first `://`, where strings.Index finds one.
unfoldable pub after_scheme : String → Option String
unfolding behind_mark
after_scheme String.[] = none
after_scheme (String.◌∷◌ c s) =
    let rest = after_scheme s in
    elim (behind_mark (String.◌∷◌ c s)) [ some t ↦ some t | none ↦ rest ]

unfoldable pub container_id : List String → String
unfolding after_scheme
container_id [] = ""
container_id (id ∷ ids) =
    let rest = container_id ids in
    if id == "" then rest else elim (after_scheme id) [ some bare ↦ bare | none ↦ id ]
