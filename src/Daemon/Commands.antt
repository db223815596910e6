-- ===== src/Daemon/Commands.antt =====
-- internal/daemon/syscmd.go: the argument lists that sysOps builds.
use chaosplane.Prelude.{
  String, Bool, true, false, List, [], ◌∷◌, ◌++◌, ◌==◌, string_eq, if◌then◌else◌, Dict, text_at,
  concat, ℤ, pos, ltb_ℤ,
}
use chaosplane.Prelude.Text.{itoa_ℤ}
use chaosplane.Prelude.Trim.{ends_with, trim_start, join_words}

-- `params[key]`, or a default where that is empty.
abbrev pub or_default : String → String → String
or_default v d = if v == "" then d else v

-- The arguments that are not empty.
abbrev pub unless_empty : String → List String
unless_empty v = if v == "" then [] else v ∷ []

unfoldable pub percent_of : Dict String → String
unfolding text_at
percent_of params =
    let percent = or_default (text_at "percent" params) "10%" in
    if ends_with b'%' percent then percent else concat (percent ∷ "%" ∷ [])

-- The arguments of `tc` behind the device.
unfoldable pub netem_args : String → Dict String → List String
unfolding percent_of text_at
netem_args action params =
    if action == "delay"
    then "netem"
      ∷ "delay"
      ∷ or_default (text_at "latency" params) "100ms"
      ∷ (unless_empty (text_at "jitter" params) ++ unless_empty (text_at "correlation" params))
    else if action == "loss"
    then "netem" ∷ "loss" ∷ percent_of params ∷ []
    else if action == "corrupt"
    then "netem" ∷ "corrupt" ∷ percent_of params ∷ []
    else if action == "duplicate"
    then "netem" ∷ "duplicate" ∷ percent_of params ∷ []
    else if action == "bandwidth"
    then "tbf"
      ∷ "rate"
      ∷ or_default (text_at "rate" params) "1mbit"
      ∷ "burst"
      ∷ "32kbit"
      ∷ "latency"
      ∷ "400ms"
      ∷ []
    else "netem" ∷ []

unfoldable pub http_abort_rule_body : String → String → Bool → List String
http_abort_rule_body iface port true =
    "FORWARD" ∷ "-o" ∷ iface ∷ "-p" ∷ "tcp" ∷ "--dport" ∷ port ∷ "-j" ∷ "REJECT" ∷ []
http_abort_rule_body iface port false =
    "INPUT" ∷ "-p" ∷ "tcp" ∷ "--dport" ∷ port ∷ "-j" ∷ "REJECT" ∷ []

unfoldable pub partition_rules : String → String → String → List (List String)
partition_rules iface direction cidr =
    let egress = "FORWARD" ∷ "-i" ∷ iface ∷ "-d" ∷ cidr ∷ "-j" ∷ "DROP" ∷ [] in
    let ingress = "FORWARD" ∷ "-o" ∷ iface ∷ "-s" ∷ cidr ∷ "-j" ∷ "DROP" ∷ [] in
    if direction == "egress"
    then egress ∷ []
    else if direction == "ingress"
    then ingress ∷ []
    else egress ∷ ingress ∷ []

-- The rules of iptablesBlock and iptablesUnblock.
unfoldable pub block_rules : String → String → List (List String)
block_rules iface direction =
    if direction == "both"
    then ("INPUT" ∷ "-i" ∷ iface ∷ "-j" ∷ "DROP" ∷ [])
      ∷ ("OUTPUT" ∷ "-o" ∷ iface ∷ "-j" ∷ "DROP" ∷ [])
      ∷ []
    else if direction == "ingress"
    then ("INPUT" ∷ "-i" ∷ iface ∷ "-j" ∷ "DROP" ∷ []) ∷ []
    else ("OUTPUT" ∷ "-i" ∷ iface ∷ "-j" ∷ "DROP" ∷ []) ∷ []

dns_rule_body : String → String → Bool → String → List String
dns_rule_body iface domain true proto =
    "FORWARD" ∷ "-p" ∷ proto ∷ "-i" ∷ iface ∷ "--dport" ∷ "53" ∷ "-m" ∷ "string" ∷ "--string"
    ∷ domain ∷ "--algo" ∷ "bm" ∷ "-j" ∷ "DROP" ∷ []
dns_rule_body iface domain false proto =
    "OUTPUT" ∷ "-p" ∷ proto ∷ "--dport" ∷ "53" ∷ "-m" ∷ "string" ∷ "--string" ∷ domain ∷ "--algo"
    ∷ "bm" ∷ "-j" ∷ "DROP" ∷ []

unfoldable pub dns_rule_bodies : String → String → Bool → List (List String)
unfolding dns_rule_body
dns_rule_bodies iface domain scoped =
    dns_rule_body iface domain scoped "udp" ∷ dns_rule_body iface domain scoped "tcp" ∷ []

unfoldable pub stressor_args : String → Dict String → List String
unfolding text_at
stressor_args stressor params =
    let workers = or_default (text_at "workers" params) "1" in
    let load = text_at "load" params in
    if stressor == "cpu"
    then "--cpu" ∷ workers ∷ (if load == "" then [] else "--cpu-load" ∷ load ∷ [])
    else if stressor == "memory"
    then "--vm" ∷ workers ∷ "--vm-bytes" ∷ or_default (text_at "size" params) "256M" ∷ []
    else if stressor == "vm"
    then "--vm" ∷ workers ∷ "--vm-bytes" ∷ or_default (text_at "size" params) "256M" ∷ []
    else if stressor == "io"
    then "--hdd" ∷ workers ∷ []
    else if stressor == "hdd"
    then "--hdd" ∷ workers ∷ []
    else []

unfoldable pub stress_args : String → Dict String → ℤ → List String
unfolding stressor_args
stress_args stressor params seconds =
    stressor_args stressor params
    ++ (if ltb_ℤ (pos 0) seconds then "--timeout" ∷ concat (itoa_ℤ seconds ∷ "s" ∷ []) ∷ [] else [])

unfoldable pub cgroup_procs_file : String → String
cgroup_procs_file cgroup =
    concat ("/sys/fs/cgroup/" ∷ trim_start b'/' cgroup ∷ "/cgroup.procs" ∷ [])

-- The script of startInCgroup.
unfoldable pub cgroup_script : String → String → List String → String
unfolding cgroup_procs_file
cgroup_script cgroup name args =
    concat ("echo $$ > " ∷ cgroup_procs_file cgroup ∷ " && exec " ∷ join_words (name ∷ args) ∷ [])
