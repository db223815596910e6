-- ===== src/Examples/Parts.antt =====
-- The parts of the controller on their own.
use chaosplane.Prelude.{
  ◌≡◌, ◌≢◌, ◌↔◌, ◌⊎◌, ◌+◌, ◌≤◌, true, false, some, none, [], ◌∷◌, arith, All, string_eq, refl, pos,
  ◌==◌,
}
use chaosplane.Api.Meta.{ok, Condition, condition_true}
use chaosplane.Api.Experiment.{rollback, HttpProbe, ProbeSpec, AbortConditionSpec}
use chaosplane.Probe.{Prober, http_probe, run_all, new_probe, run_spec}
use chaosplane.Probe.Verdict.{probes_of, run_all-true_iff, run_all-first}
use chaosplane.Executor.{register, get, must_register, count}
use chaosplane.Executor.Lookup.{found, must_register_lem}
use chaosplane.Controller.Conditions.{
  find_condition, upsert, occurrences, find_condition-upsert, occurrences-upsert-le-one,
}
use chaosplane.Controller.Experiment.Running.{check_abort_conditions, abort_condition_to_probe_spec}
use chaosplane.Controller.Experiment.Aborting.{check_abort_conditions-first}
use chaosplane.Examples.Samples.{seconds, healthy, stuck, cart_condition, cart_probe, registry_of}

-- Every probe answers no.
abbrev refusing : Prober
refusing _ = ok false

run_all-true_iff_example :
    ((run_all refusing (cart_probe ∷ [])).1 ≡ ok true)
    ↔ All (λ s. run_spec refusing s ≡ ok true) (cart_probe ∷ [])
run_all-true_iff_example = run_all-true_iff refusing (cart_probe ∷ [])

-- Only the cart answers.
abbrev cart_only : Prober
cart_only (http_probe c) = ok (c.url == "http://cart")
cart_only _ = ok false

abbrev shop_config : HttpProbe
shop_config = record {
  url = "http://shop";
  method = "";
  expected_status = pos 200;
  expected_body = "";
}

abbrev shop_probe : ProbeSpec
shop_probe = record cart_probe { name = "shop"; http = some shop_config }

abbrev cart_config : HttpProbe
cart_config = record shop_config { url = "http://cart" }

run_all-first_example :
    run_all cart_only (cart_probe ∷ shop_probe ∷ cart_probe ∷ [])
    ≡ (http_probe cart_config ∷ http_probe shop_config ∷ [], ok false)
unfolding run_all new_probe run_spec probes_of
run_all-first_example =
    run_all-first cart_only (cart_probe ∷ []) shop_probe (cart_probe ∷ []) (refl, tt) (λ e. cc)

must_register_lem_example :
    ((must_register (registry_of healthy) "pod-kill" stuck ≡ none)
      × (found (get (registry_of healthy) "pod-kill") ≢ none))
    ⊎ ((must_register (registry_of healthy) "pod-kill" stuck
          ≡ some (register (registry_of healthy) "pod-kill" stuck))
        × (found (get (registry_of healthy) "pod-kill") ≡ none)
        × (count (register (registry_of healthy) "pod-kill" stuck)
            ≡ count (registry_of healthy) + 1))
must_register_lem_example = must_register_lem (registry_of healthy) "pod-kill" stuck

abbrev progressing : Condition
progressing = record {
  kind = "Progressing";
  status = condition_true;
  reason = "Started";
  message = "";
  last_transition_time = seconds 0;
  observed_generation = 1;
}

find_condition-upsert_example :
    find_condition "Progressing" (upsert progressing []) ≡ some progressing
find_condition-upsert_example = find_condition-upsert "Progressing" progressing []

occurrences-upsert-le-one_example :
    occurrences "Progressing" (upsert progressing (progressing ∷ [])) ≤ 1
unfolding occurrences
occurrences-upsert-le-one_example =
    occurrences-upsert-le-one "Progressing" progressing (progressing ∷ []) (omega arith)

abbrev shop_condition : AbortConditionSpec
shop_condition = record (cart_condition rollback) { name = "shop"; http = some shop_config }

check_abort_conditions-first_example :
    check_abort_conditions cart_only
      (shop_condition ∷ cart_condition rollback ∷ shop_condition ∷ [])
    ≡ (http_probe shop_config ∷ http_probe cart_config ∷ [], ok (some rollback))
unfolding check_abort_conditions new_probe run_spec abort_condition_to_probe_spec probes_of
check_abort_conditions-first_example =
    check_abort_conditions-first cart_only (shop_condition ∷ []) (cart_condition rollback)
      (shop_condition ∷ []) (refl, tt) (λ e. cc)
