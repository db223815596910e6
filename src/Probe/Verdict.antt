-- ===== src/Probe/Verdict.antt =====
-- The verdict of `RunAll` on a list of probes.
use chaosplane.Prelude.{
  ◌≡◌, ◌≢◌, ◌↔◌, refl, Bool, true, List, [], ◌∷◌, ◌++◌, arith, All, concat, quote,
}
use chaosplane.Api.Meta.{Result, ok, err}
use chaosplane.Api.Experiment.{ProbeSpec}
use chaosplane.Probe.{Probe, Prober, new_probe, run_spec, run_all}

abbrev Passes : Prober → ProbeSpec → Type 0
Passes run spec = run_spec run spec ≡ ok true

-- What a probe that does not pass makes of the whole list.
abbrev pub verdict : ProbeSpec → Result Bool → Result Bool
verdict spec (ok b) = ok b
verdict spec (err e) = err (concat ("probe " ∷ quote spec.name ∷ ": " ∷ e ∷ []))

-- The probes that the specifications configure.
unfoldable pub probes_of : List ProbeSpec → List Probe
probes_of [] = []
probes_of (spec ∷ specs) = elim (new_probe spec) [
  | ok p ↦ p ∷ probes_of specs
  | err e ↦ probes_of specs
]

-- The steady state holds exactly when each probe is configured and passes.
pub run_all-true_iff :
    (run : Prober) (probes : List ProbeSpec)
    → ((run_all run probes).1 ≡ ok true) ↔ All (Passes run) probes
unfolding run_all run_spec
run_all-true_iff run [] = (λ _. tt, λ _. refl)
run_all-true_iff run (spec ∷ probes) = (
  λ h. (ground arith, (run_all-true_iff run probes).0 (ground arith)),
  λ h. ground (arith, h.0, (run_all-true_iff run probes).1 h.1),
)

-- Otherwise the first probe that does not pass decides: a probe that answers no gives no, and one that
-- fails, or is not configured, gives its error under its name. The probes that are run are those up to
-- it, each once and in order, and it itself where it is configured; none behind it is run.
pub run_all-first :
    (run : Prober) (before : List ProbeSpec) (spec : ProbeSpec) (rest : List ProbeSpec)
    → All (Passes run) before
    → run_spec run spec ≢ ok true
    → run_all run (before ++ spec ∷ rest)
      ≡ (probes_of (before ++ spec ∷ []), verdict spec (run_spec run spec))
unfolding run_all run_spec probes_of
run_all-first run [] spec rest h n = ground arith
run_all-first run (b ∷ before) spec rest h n =
    ground (arith, h.0, run_all-first run before spec rest h.1 n)
