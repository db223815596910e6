-- ===== src/Examples/Netns.antt =====
-- A node with one pod: runs of the model of internal/daemon/netns.
use chaosplane.Prelude.{
  ◌≡◌, refl, some, [], ◌∷◌, ◌==◌, string_eq, int_eq, if◌then◌else◌, pos, lookup, concat,
}
use chaosplane.Prelude.Text.{itoa_ℤ}
use chaosplane.Prelude.Codes.{atoi}
use chaosplane.Prelude.Trim.{split_text, trim_text}
use chaosplane.Api.Meta.{ok, err}
use chaosplane.Daemon.Server.{PodRef, Resolution}
use chaosplane.Daemon.Netns.{
  NodeHost, unified_path, three_fields, parse_cgroup_v2_path, match_host_veth, container_info,
  netlink_impl, pod_eth0_of, host_link_of, read_cgroup_v2_path, resolve,
}
use chaosplane.Daemon.Pairing.{IsOfPod, resolve-IsOfPod}

fields_with_colon : three_fields "0::/a:b" ≡ some ("0", "", "/a:b")
unfolding three_fields
fields_with_colon = refl

unified_second : parse_cgroup_v2_path "1:name=systemd:/x\n0::/kubepods/pod1\n" ≡ ok "/kubepods/pod1"
unfolding parse_cgroup_v2_path split_text trim_text unified_path
unified_second = refl

abbrev pub small_node : NodeHost
small_node = record {
  read_file = λ path.
      if path == "/proc/42/root/sys/class/net/eth0/ifindex"
      then ok "3\n"
      else if path == "/proc/42/root/sys/class/net/eth0/iflink"
      then ok "17\n"
      else if path == "/proc/42/cgroup"
      then ok "0::/kubepods/pod1\n"
      else err "no such file";
  container_status =
      λ id. if id == "c1" then ok (("info", "{\"pid\":42}") ∷ []) else err "not found";
  pid_of_json = λ raw. ok (pos 42);
  link_by_index = λ i.
      if i == pos 17
      then ok (record { index = pos 17; name = "veth1"; peer_idx = pos 3 })
      else err "Link not found";
}

abbrev cart_pod : PodRef
cart_pod = record { namespace = "shop"; name = "cart"; container_id = "c1"; node_name = "n1" }

abbrev pub cart_resolution : Resolution
cart_resolution = record {
  container_pid = pos 42;
  netns_path = "/proc/42/ns/net";
  host_veth_ifindex = pos 17;
  host_veth_name = "veth1";
  pod_eth0_ifindex = pos 3;
  cgroup_v2_path = "/kubepods/pod1";
}

cart_resolved :
    resolve
      (container_info small_node)
      (netlink_impl small_node)
      (read_cgroup_v2_path small_node)
      cart_pod
    ≡ ok cart_resolution
unfolding resolve container_info lookup read_cgroup_v2_path match_host_veth pod_eth0_of host_link_of
    concat itoa_ℤ atoi trim_text split_text unified_path
cart_resolved = refl

resolve-IsOfPod_example :
    IsOfPod
      (container_info small_node)
      (netlink_impl small_node)
      (read_cgroup_v2_path small_node)
      cart_pod
      cart_resolution
resolve-IsOfPod_example =
    resolve-IsOfPod (container_info small_node) (netlink_impl small_node)
      (read_cgroup_v2_path small_node) cart_pod cart_resolution cart_resolved
