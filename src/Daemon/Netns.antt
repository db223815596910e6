-- ===== src/Daemon/Netns.antt =====
-- internal/daemon/netns: how a pod's interface on the host is found. The files of /proc, the CRI
-- runtime and netlink are arguments.
use Prim.Native.Char.{code}
use chaosplane.Prelude.{
  ℕ, String, not, Option, none, some, List, [], ◌∷◌, ◌==◌, string_eq, nat_eq, int_eq, if◌then◌else◌,
  Dict, lookup, text_at, concat, quote, ◌&&◌, ℤ, pos, leb_ℤ,
}
use chaosplane.Prelude.Codes.{codes, atoi, atoi_nearest}
use chaosplane.Prelude.Text.{itoa_ℤ}
use chaosplane.Prelude.Trim.{split_text, trim_text}
use chaosplane.Api.Meta.{Result, ok, err}
use chaosplane.Api.Results.{◌>>=◌, ◌>>◌, require, wrap}
use chaosplane.Daemon.Server.{PodRef, Resolution}

-- containerInfo, and link
pub record ContainerInfo : Type 0 where
  pub pid : ℤ
  pub cgroup_v2_path : String

pub record Link : Type 0 where
  pub index : ℤ
  pub name : String
  pub peer_idx : ℤ

-- criClient
abbrev pub CriClient : Type 0
CriClient = String → Result ContainerInfo

pub record NetlinkOps : Type 0 where
  pub pod_eth0 : String → Result Link
  pub host_link_by_index : ℤ → Result Link

-- What of the host the package reads: a file, the verbose status of a container from the CRI runtime,
-- the JSON of that status, and a link of netlink, by its index, with the index of its parent.
pub record NodeHost : Type 0 where
  pub read_file : String → Result String
  pub container_status : String → Result (Dict String)
  pub pid_of_json : String → Result ℤ
  pub link_by_index : ℤ → Result Link

abbrev pub no_peer : Link → String
no_peer eth0 = concat (
    "pod eth0 (ifindex " ∷ itoa_ℤ eth0.index ∷ ") reports no veth peer; not a veth-backed pod" ∷ [])

abbrev pub mismatch : Link → Link → String
mismatch eth0 host = concat (
    "veth pairing mismatch: host link "
    ∷ itoa_ℤ host.index
    ∷ " peers ifindex "
    ∷ itoa_ℤ host.peer_idx
    ∷ ", expected pod eth0 "
    ∷ itoa_ℤ eth0.index
    ∷ [])

unfoldable pub match_host_veth : NetlinkOps → String → Result (Link × ℤ)
match_host_veth nl pod_proc_root = do
  eth0 ← wrap ("read pod eth0 via " ∷ pod_proc_root ∷ []) (nl.pod_eth0 pod_proc_root)
  require (not (eth0.peer_idx == pos 0)) (no_peer eth0)
  host ←
      wrap ("host veth peer ifindex " ∷ itoa_ℤ eth0.peer_idx ∷ " not found in host netns" ∷ [])
        (nl.host_link_by_index eth0.peer_idx)
  require (host.peer_idx == eth0.index) (mismatch eth0 host)
  ok (host, eth0.index)

-- strings.Cut at a character
unfoldable pub cut_text : ℕ → String → Option (String × String)
cut_text sep String.[] = none
cut_text sep (String.◌∷◌ c s) =
    let rest = cut_text sep s in
    if code c == sep
    then some ("", s)
    else elim rest [ none ↦ none | some (before, after) ↦ some (String.◌∷◌ c before, after) ]

-- strings.SplitN(line, ":", 3), where it has three parts.
unfoldable pub three_fields : String → Option (String × String × String)
unfolding cut_text
three_fields line = elim (cut_text b':' line) [
  | none ↦ none
  | some (first, rest) ↦ elim (cut_text b':' rest) [
    | none ↦ none
    | some (second, third) ↦ some (first, second, third)
  ]
]

-- The path of a line of the unified hierarchy.
unfoldable pub unified_path : String → Option String
unfolding three_fields
unified_path line = elim (three_fields line) [
  | none ↦ none
  | some (id, controllers, path) ↦ if id == "0" && controllers == "" then some path else none
]

unfoldable pub first_unified : List String → Result String
first_unified [] = err "no cgroup v2 (unified) entry found; cgroup v2 is required"
first_unified (line ∷ lines) = elim (unified_path line) [
  | some path ↦ ok path
  | none ↦ first_unified lines
]

unfoldable pub parse_cgroup_v2_path : String → Result String
unfolding first_unified
parse_cgroup_v2_path contents = first_unified (split_text 10 (trim_text contents))

abbrev pub netns_path_for_pid : ℤ → String
netns_path_for_pid pid = concat ("/proc/" ∷ itoa_ℤ pid ∷ "/ns/net" ∷ [])

abbrev pub proc_cgroup_path_for_pid : ℤ → String
proc_cgroup_path_for_pid pid = concat ("/proc/" ∷ itoa_ℤ pid ∷ "/cgroup" ∷ [])

abbrev pub pod_sys_class_net : ℤ → String
pod_sys_class_net pid = concat ("/proc/" ∷ itoa_ℤ pid ∷ "/root/sys/class/net" ∷ [])

-- strconv.Atoi with its error, which tells a number out of range from no number.
unfoldable pub atoi_result : String → Result ℤ
atoi_result s = elim (atoi (codes s)) [
  | some n ↦ ok n
  | none ↦ err (
      concat (
        "strconv.Atoi: parsing "
        ∷ quote s
        ∷ ": "
        ∷ (if atoi_nearest (codes s) == pos 0 then "invalid syntax" else "value out of range")
        ∷ []))
]

unfoldable pub parse_ifindex_file : String → Result ℤ
unfolding atoi_result
parse_ifindex_file contents = atoi_result (trim_text contents)

unfoldable pub parse_pid : (String → Result ℤ) → String → Result ℤ
parse_pid pid_of_json raw = do
  pid ← wrap ("parse CRI info JSON" ∷ []) (pid_of_json raw)
  require (not (leb_ℤ pid (pos 0)))
      (concat ("CRI info reported non-positive pid " ∷ itoa_ℤ pid ∷ []))
  ok pid

unfoldable pub parse_pid_from_info : (String → Result ℤ) → Dict String → Result ℤ
unfolding text_at atoi_result parse_pid
parse_pid_from_info pid_of_json info = elim (lookup "info" info) [
  | none ↦
      if text_at "pid" info == ""
      then err (concat ("CRI verbose info missing " ∷ quote "info" ∷ " key" ∷ []))
      else atoi_result (text_at "pid" info)
  | some raw ↦ parse_pid pid_of_json raw
]

module _ (node : NodeHost) where
  unfoldable pub container_info : CriClient
  unfolding parse_pid_from_info
  container_info id = do
    info ← wrap ("CRI ContainerStatus " ∷ id ∷ []) (node.container_status id)
    pid ← wrap ("container " ∷ id ∷ []) (parse_pid_from_info node.pid_of_json info)
    ok (record { pid = pid; cgroup_v2_path = "" })

  unfoldable pub pod_eth0_of : String → Result Link
  unfolding parse_ifindex_file
  pod_eth0_of root = do
    idx_raw ←
        wrap ("read pod eth0 ifindex" ∷ []) (node.read_file (concat (root ∷ "/eth0/ifindex" ∷ [])))
    index ← wrap ("parse pod eth0 ifindex" ∷ []) (parse_ifindex_file idx_raw)
    peer_raw ←
        wrap ("read pod eth0 iflink" ∷ []) (node.read_file (concat (root ∷ "/eth0/iflink" ∷ [])))
    peer_idx ← wrap ("parse pod eth0 iflink" ∷ []) (parse_ifindex_file peer_raw)
    ok (record { index = index; name = "eth0"; peer_idx = peer_idx })

  unfoldable pub host_link_of : ℤ → Result Link
  host_link_of index =
      wrap ("lookup host link ifindex " ∷ itoa_ℤ index ∷ []) (node.link_by_index index)

  abbrev pub netlink_impl : NetlinkOps
  netlink_impl = record { pod_eth0 = pod_eth0_of; host_link_by_index = host_link_of }

  unfoldable pub read_cgroup_v2_path : ℤ → Result String
  unfolding parse_cgroup_v2_path
  read_cgroup_v2_path pid = do
    contents ←
        wrap ("read cgroup for pid " ∷ itoa_ℤ pid ∷ [])
          (node.read_file (proc_cgroup_path_for_pid pid))
    parse_cgroup_v2_path contents

-- The methods of resolver, for any runtime and netlink.
module _ (cri : CriClient) (nl : NetlinkOps) (cgroup_of : ℤ → Result String) where
  unfoldable pub resolve : PodRef → Result Resolution
  unfolding match_host_veth
  resolve ref = do
    require (not (ref.container_id == "")) (
        concat (
          "netns resolve: container ID is required for pod " ∷ ref.namespace ∷ "/" ∷ ref.name ∷ []))
    info ← cri ref.container_id
    (host_veth, pod_eth0_ifindex) ← match_host_veth nl (pod_sys_class_net info.pid)
    cgroup_path ← cgroup_of info.pid
    ok (record {
      container_pid = info.pid;
      netns_path = netns_path_for_pid info.pid;
      host_veth_ifindex = host_veth.index;
      host_veth_name = host_veth.name;
      pod_eth0_ifindex = pod_eth0_ifindex;
      cgroup_v2_path = cgroup_path;
    })

  unfoldable pub resolve_cgroup_v2 : PodRef → Result String
  resolve_cgroup_v2 ref = do
    require (not (ref.container_id == "")) (
        concat (
          "netns resolve cgroup: container ID is required for pod " ∷ ref.namespace ∷ "/" ∷ ref.name
          ∷ []))
    info ← cri ref.container_id
    cgroup_of info.pid
