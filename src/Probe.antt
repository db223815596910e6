-- ===== src/Probe.antt =====
-- internal/probe/probe.go: from a probe's specification to a probe, and the conjunction of probes.
pub mod Verdict
use chaosplane.Prelude.{String, Bool, true, false, Option, none, some, List, [], ◌∷◌, concat, quote}
use chaosplane.Api.Meta.{Result, ok, err}
use chaosplane.Api.Experiment.{
  ProbeSpec, ProbeType, PrometheusProbe, HttpProbe, K8sProbe, prometheus, http, k8s,
}

-- The implementations of the interface Probe, by their configuration.
pub data Probe : Type 0 where
  prometheus_probe : PrometheusProbe → Probe
  http_probe : HttpProbe → Probe
  k8s_probe : K8sProbe → Probe

-- The text of a ProbeType.
pub probe_type_string : ProbeType → String
probe_type_string prometheus = "prometheus"
probe_type_string http = "http"
probe_type_string k8s = "k8s"
probe_type_string (ProbeType.unknown s) = s

configured {ℓ} : {A : Type ℓ} → (A → Probe) → String → String → Option A → Result Probe
configured make name kind (some config) = ok (make config)
configured make name kind none =
    err (concat ("probe " ∷ quote name ∷ ": " ∷ kind ∷ " config required" ∷ []))

unfoldable pub new_probe : ProbeSpec → Result Probe
unfolding configured probe_type_string
new_probe spec = elim spec.kind [
  | prometheus ↦ configured prometheus_probe spec.name "prometheus" spec.prometheus
  | http ↦ configured http_probe spec.name "http" spec.http
  | k8s ↦ configured k8s_probe spec.name "k8s" spec.k8s
  | ProbeType.unknown s ↦
      err (concat ("probe " ∷ quote spec.name ∷ ": unknown type " ∷ quote s ∷ []))
]

-- What `Run` answers for each probe at the moment of the call. Which probes are run, and in what
-- order, is a result of the functions below.
abbrev pub Prober : Type 0
Prober = Probe → Result Bool

-- `p.Run` of the probe of a specification, or the error that there is none.
unfoldable pub run_spec : Prober → ProbeSpec → Result Bool
run_spec run spec = elim (new_probe spec) [ ok p ↦ run p | err e ↦ err e ]

-- The probes that were run, in order, and what RunAll answers.
unfoldable pub run_all : Prober → List ProbeSpec → List Probe × Result Bool
run_all run [] = ([], ok true)
run_all run (spec ∷ probes) = elim (new_probe spec) [
  | err e ↦ ([], err (concat ("probe " ∷ quote spec.name ∷ ": " ∷ e ∷ [])))
  | ok p ↦ elim (run p) [
    | err e ↦ (p ∷ [], err (concat ("probe " ∷ quote spec.name ∷ ": " ∷ e ∷ [])))
    | ok false ↦ (p ∷ [], ok false)
    | ok true ↦ let (ran, answer) = run_all run probes in (p ∷ ran, answer)
  ]
]
