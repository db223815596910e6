-- ===== src/Examples/Stubborn.antt =====
-- A daemon whose host takes no rule and no qdisc back.
use chaosplane.Prelude.{
  ◌≡◌, refl, String, true, false, none, some, Option, List, [], ◌∷◌, arith, ◌==◌, string_eq, nat_eq,
  if◌then◌else◌, lookup, insert, text_at,
}
use chaosplane.Api.Meta.{Error}
use chaosplane.Daemon.Host.{Runner, append_rules, partition}
use chaosplane.Daemon.Commands.{partition_rules}
use chaosplane.Daemon.Server.{resolve_target}
use chaosplane.Daemon.Handlers.{settle, exec_partition, exec_network_chaos}
use chaosplane.Daemon.Cancel.{cancel_chaos}
use chaosplane.Daemon.Claims.{Claim, rule, qdisc, Accountable}
use chaosplane.Daemon.History.{exec}
use chaosplane.Daemon.Leftover.{Stubborn, exec-cancel_chaos-leaves}
use chaosplane.Examples.Daemon.{
  Counts, counts, counting, with_claim, cut_off, cut_fresh, idle, first_stamp, no_resolver,
}

abbrev append_only : List String → Counts → Counts × Option Error
append_only [] h = (h, none)
append_only (op ∷ body) h =
    if op == "-A" then (with_claim (rule body) h, none) else (h, some "xtables lock")

abbrev add_only : List String → Counts → Counts × Option Error
add_only (word ∷ op ∷ dev ∷ iface ∷ more) h =
    if op == "add"
    then (if h (qdisc iface) == 0
        then (with_claim (qdisc iface) h, none)
        else (h, some "File exists"))
    else (h, some "Operation not permitted")
add_only _ h = (h, none)

unfoldable stubborn : Runner Counts
unfolding counting
stubborn = record counting {
  run = λ name args h.
      if name == "iptables"
      then append_only args h
      else if name == "tc"
      then add_only args h
      else (h, none);
}

stubborn-Stubborn : Stubborn stubborn
unfolding stubborn
stubborn-Stubborn = record {
  rules_stay = λ body h n. ground (arith, n);
  qdiscs_stay = λ iface h n. ground (arith, n);
}

stubborn-Accountable : Accountable stubborn counts
unfolding stubborn counting with_claim
stubborn-Accountable = record {
  append_ok = λ body h e c. refl;
  append_err = λ body h n c. ground (arith, n refl);
  delete_ok = λ body h e c. ground (arith, e);
  delete_err = λ body h n c. refl;
  add_ok = λ iface args h e c. ground (arith, e);
  add_err = λ iface args h n c. ground (arith, n);
  remove_ok = λ iface h e c. ground (arith, e);
  remove_err = λ iface h n c. refl;
  kill = λ h c. refl;
  starts = λ name args h c. refl;
  loads = λ name percent h c. refl;
  attaches = λ i p h c. refl;
  closes_program = λ p h c. refl;
  closes_link = λ l h c. refl;
}

cut_done : (exec stubborn first_stamp idle cut_off).1.success ≡ true
unfolding exec_network_chaos exec_partition counting stubborn settle lookup insert resolve_target
    text_at partition append_rules partition_rules
cut_done = refl

exec-cancel_chaos-leaves_example :
    let done_s = (exec stubborn first_stamp idle cut_off).0 in
    let after = cancel_chaos stubborn "5f0c9a51" done_s in
    (after.1.success ≡ true)
    × ((c : Claim) → counts after.0.host c ≡ counts done_s.host c)
    × (after.0.store.executions ≡ [])
    × ((cancel_chaos stubborn "5f0c9a51" after.0).1.success ≡ false)
exec-cancel_chaos-leaves_example =
    exec-cancel_chaos-leaves stubborn-Accountable stubborn-Stubborn first_stamp idle cut_off
      no_resolver tt cut_fresh cut_done
