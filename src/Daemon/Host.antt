-- ===== src/Daemon/Host.antt =====
-- What the daemon runs on the host, and the operations of sysOps (internal/daemon/syscmd.go) and of the
-- eBPF manager (internal/daemon/ebpf/manager.go) as functions from host to host.
use Prim.Native.String.{slice}
use chaosplane.Prelude.{
  ℕ, String, Bool, true, false, Option, none, some, List, [], ◌∷◌, ◌++◌, ◌==◌, string_eq,
  if◌then◌else◌, Dict, lookup, insert, remove, text_at, concat, ℤ,
}
use chaosplane.Prelude.Text.{itoa_ℤ}
use chaosplane.Prelude.Trim.{split_text, trim_text}
use chaosplane.Api.Meta.{Error, Result, ok, err}
use chaosplane.Daemon.Commands.{
  or_default, netem_args, http_abort_rule_body, partition_rules, block_rules, dns_rule_bodies,
  stress_args, cgroup_script,
}

-- The host, in an unknown state `H`: commandRunner, and the calls of the eBPF library that load, attach
-- and close. `none` is a nil error. A program and a link are numbers.
pub record Runner (H : Type 0) : Type 0 where
  pub run : String → List String → H → H × Option Error
  pub start : String → List String → H → H × Option Error
  pub new_program : String → ℕ → H → H × Result ℕ  -- by name and drop percentage
  pub attach : ℤ → ℕ → H → H × Result ℕ  -- to an interface, ingress
  pub close_program : ℕ → H → H
  pub close_link : ℕ → H → H

-- podTarget
pub record PodTarget : Type 0 where
  pub scoped : Bool
  pub host_veth : String
  pub cgroup_v2_path : String

-- A loaded program and its link, by execution.
abbrev pub Programs : Type 0
Programs = Dict (ℕ × ℕ)

-- strings.Split(domains, ","), trimmed, without the empty ones.
unfoldable pub domains_of : List String → List String
domains_of [] = []
domains_of (part ∷ parts) =
    let rest = domains_of parts in if trim_text part == "" then rest else trim_text part ∷ rest

-- The rules of all domains.
unfoldable pub dns_rules : String → Bool → List String → List (List String)
dns_rules iface scoped [] = []
dns_rules iface scoped (d ∷ ds) = dns_rule_bodies iface d scoped ++ dns_rules iface scoped ds

module _ {H : Type 0} (os : Runner H) where
  -- `iptables -A` for each rule, up to the first error.
  unfoldable pub append_rules : List (List String) → H → H × Option Error
  append_rules [] h = (h, none)
  append_rules (rule ∷ rules) h =
      let (next, failure) = os.run "iptables" ("-A" ∷ rule) h in
      elim failure [ some e ↦ (next, some e) | none ↦ append_rules rules next ]

  -- `iptables -D` for each rule, whatever it answers.
  unfoldable pub delete_rules : List (List String) → H → H
  delete_rules [] h = h
  delete_rules (rule ∷ rules) h = delete_rules rules (os.run "iptables" ("-D" ∷ rule) h).0

  unfoldable pub tc_add_netem : String → String → Dict String → H → H × Option Error
  tc_add_netem iface action params =
      os.run "tc" ("qdisc" ∷ "add" ∷ "dev" ∷ iface ∷ "root" ∷ netem_args action params)

  unfoldable pub tc_delete : String → H → H × Option Error
  tc_delete iface = os.run "tc" ("qdisc" ∷ "del" ∷ "dev" ∷ iface ∷ "root" ∷ [])

  unfoldable pub http_abort : PodTarget → ℤ → H → H × Option Error
  http_abort target port =
      os.run "iptables" ("-A" ∷ http_abort_rule_body target.host_veth (itoa_ℤ port) target.scoped)

  unfoldable pub http_delay : PodTarget → String → H → H × Option Error
  http_delay target delay = os.run "tc" (
      "qdisc"
      ∷ "add"
      ∷ "dev"
      ∷ (if target.scoped then target.host_veth else "lo")
      ∷ "root"
      ∷ "netem"
      ∷ "delay"
      ∷ concat (or_default delay "100" ∷ "ms" ∷ [])
      ∷ [])

  unfoldable pub http_restore : Dict String → H → H
  unfolding text_at tc_delete
  http_restore params h =
      let iface = text_at "iface" params in
      let scoped = if iface == "" then false else true in
      let port = text_at "port" params in
      if text_at "action" params == "abort"
      then (if port == ""
          then h
          else (os.run "iptables" ("-D" ∷ http_abort_rule_body iface port scoped) h).0)
      else if text_at "action" params == "delay"
      then (tc_delete (if scoped then iface else "lo") h).0
      else h

  unfoldable pub iptables_block : String → String → H → H × Option Error
  unfolding append_rules
  iptables_block iface direction = append_rules (block_rules iface direction)

  -- Its error is logged only.
  unfoldable pub iptables_unblock : String → String → H → H
  unfolding delete_rules
  iptables_unblock iface direction = delete_rules (block_rules iface direction)

  unfoldable pub partition : String → String → String → H → H × Option Error
  unfolding append_rules
  partition iface direction cidr h =
      if cidr == ""
      then (h, some "partition requires target_cidr")
      else append_rules (partition_rules iface (or_default direction "both") cidr) h

  unfoldable pub partition_restore : String → String → String → H → H
  unfolding delete_rules
  partition_restore iface direction cidr h =
      if cidr == ""
      then h
      else delete_rules (partition_rules iface (or_default direction "both") cidr) h

  unfoldable pub stress_ng_start : String → Dict String → ℤ → String → H → H × Option Error
  stress_ng_start stressor params seconds cgroup =
      if cgroup == ""
      then os.start "stress-ng" (stress_args stressor params seconds)
      else os.start "sh"
          ("-c" ∷ cgroup_script cgroup "stress-ng" (stress_args stressor params seconds) ∷ [])

  unfoldable pub stress_ng_stop : H → H
  stress_ng_stop h = (os.run "pkill" ("-f" ∷ "stress-ng" ∷ []) h).0

  unfoldable pub dns_intercept : String → PodTarget → Dict String → H → H × Option Error
  unfolding append_rules text_at
  dns_intercept action target params h =
      let domains = text_at "domains" params in
      if domains == ""
      then (h, some "domains parameter required for dns chaos")
      else if action == "error"
      then append_rules
          (dns_rules target.host_veth target.scoped (domains_of (split_text b',' domains))) h
      else (h, some (concat ("unsupported dns chaos action: " ∷ action ∷ [])))

  unfoldable pub dns_restore : Dict String → H → H
  unfolding delete_rules text_at
  dns_restore params =
      let iface = text_at "iface" params in
      delete_rules (
        dns_rules iface (if iface == "" then false else true)
          (domains_of (split_text b',' (text_at "domains" params))))

  -- LoadTCDrop
  unfoldable pub load_tc_drop : String → ℤ → ℕ → Programs → H → Programs × H × Option Error
  load_tc_drop id if_index percent programs h =
      let (loaded, program) = os.new_program (concat ("tc_drop_" ∷ slice id 0 8 ∷ [])) percent h in
      elim program [
        | err e ↦ (programs, loaded, some (concat ("load tc drop program: " ∷ e ∷ [])))
        | ok prog ↦
            let (attached, link) = os.attach if_index prog loaded in
            elim link [
              | err e ↦ (
                programs,
                os.close_program prog attached,
                some (concat ("attach tc drop program: " ∷ e ∷ [])),
              )
              | ok l ↦ (insert id (prog, l) programs, attached, none)
            ]
      ]

  unfoldable pub unload : String → Programs → H → Programs × H
  unload id programs h = elim (lookup id programs) [
    | none ↦ (programs, h)
    | some (prog, l) ↦ (remove id programs, os.close_program prog (os.close_link l h))
  ]

  unfoldable pub unload_all : Programs → H → H
  unload_all [] h = h
  unload_all ((id, (prog, l)) ∷ programs) h =
      unload_all programs (os.close_program prog (os.close_link l h))
