-- ===== src/Daemon/Pairing.antt =====
-- The interface that the resolver of internal/daemon/netns hands out is the pod's own.
use chaosplane.Prelude.{
  ◌≡◌, ◌≢◌, subst, inl, inr, Bool-cases, refl, sym, ◌∙◌, ap, String, Option, none, some, arith,
  ◌==◌, string_eq, int_eq, beq_ℤ_iff, eq_iff, ℤ, pos,
}
use chaosplane.Api.Meta.{Result, ok, err, Result-cases}
use chaosplane.Api.Results.{wrap-ok}
use chaosplane.Daemon.Server.{PodRef, Resolution, Resolver}
use chaosplane.Daemon.Netns.{
  ContainerInfo, Link, CriClient, NetlinkOps, NodeHost, match_host_veth, pod_sys_class_net,
  netns_path_for_pid, resolve, host_link_of, netlink_impl, container_info, read_cgroup_v2_path,
}
use chaosplane.Daemon.Targets.{IsNamed}

-- A link of the host and a link of the pod that name each other as their peers.
pub record Paired (nl : NetlinkOps) (root : String) (host : Link) (index : ℤ) : Type 0 where
  pub eth0 : Link
  pub of_pod : nl.pod_eth0 root ≡ ok eth0
  pub veth : eth0.peer_idx ≢ pos 0
  pub of_host : nl.host_link_by_index eth0.peer_idx ≡ ok host
  pub mutual_peer : host.peer_idx ≡ eth0.index
  pub same : index ≡ eth0.index

match_host_veth-Paired :
    (nl : NetlinkOps) (root : String) (host : Link) (index : ℤ)
    → match_host_veth nl root ≡ ok (host, index)
    → Paired nl root host index
unfolding match_host_veth
match_host_veth-Paired nl root host index h = elim (Result-cases (nl.pod_eth0 root)) [
  | inr (e, failed) ↦ ground (arith, failed, h)
  | inl (eth0, read) ↦ elim (Bool-cases (eth0.peer_idx == pos 0)) [
    | inl none_there ↦ ground (arith, read, none_there, h)
    | inr peer ↦ elim (Result-cases (nl.host_link_by_index eth0.peer_idx)) [
      | inr (e, failed) ↦ ground (arith, read, peer, failed, h)
      | inl (found, looked) ↦ elim (Bool-cases (found.peer_idx == eth0.index)) [
        | inr other ↦ ground (arith, read, peer, looked, other, h)
        | inl paired ↦
            let same_host : found ≡ host = ground (arith, read, peer, looked, paired, h) in
            record {
              eth0 = eth0;
              of_pod = read;
              veth = λ e. ground (arith, peer, beq_ℤ_iff eth0.peer_idx (pos 0), e);
              of_host = looked ∙ ap ok same_host;
              mutual_peer =
                  sym (ap (λ l. l.peer_idx) same_host)
                  ∙ (beq_ℤ_iff found.peer_idx eth0.index).0 paired;
              same = ground (arith, read, peer, looked, paired, h);
            }
      ]
    ]
  ]
]

-- A resolution of the pod that a reference names.
pub record IsOfPod (cri : CriClient) (nl : NetlinkOps) (cgroup_of : ℤ → Result String)
    (ref : PodRef) (res : Resolution) : Type 0 where
  pub named : ref.container_id ≢ ""
  pub info : ContainerInfo
  pub asked : cri ref.container_id ≡ ok info
  pub process : res.container_pid ≡ info.pid
  pub host : Link
  pub paired : Paired nl (pod_sys_class_net info.pid) host res.pod_eth0_ifindex
  pub interface : (res.host_veth_name ≡ host.name) × (res.host_veth_ifindex ≡ host.index)
  pub cgroup : cgroup_of info.pid ≡ ok res.cgroup_v2_path

-- Resolve answers only about the container that the reference names, whatever the CRI runtime, netlink
-- and the files of the host say: the process is the one the runtime gives, the interface is the host's
-- link at the peer index of that process's eth0, which is not 0, and that link names the pod's eth0 as
-- its own peer in turn; the cgroup path is the one read for the same process.
pub resolve-IsOfPod :
    (cri : CriClient) (nl : NetlinkOps) (cgroup_of : ℤ → Result String) (ref : PodRef)
    (res : Resolution)
    → resolve cri nl cgroup_of ref ≡ ok res
    → IsOfPod cri nl cgroup_of ref res
unfolding resolve
resolve-IsOfPod cri nl cgroup_of ref res h = elim (Bool-cases (ref.container_id == "")) [
  | inl missing ↦ ground (arith, missing, h)
  | inr given ↦ elim (Result-cases (cri ref.container_id)) [
    | inr (e, failed) ↦ ground (arith, given, failed, h)
    | inl (info, asked) ↦ elim (Result-cases (match_host_veth nl (pod_sys_class_net info.pid))) [
      | inr (e, failed) ↦ ground (arith, given, asked, failed, h)
      | inl ((host, index), matched) ↦ elim (Result-cases (cgroup_of info.pid)) [
        | inr (e, failed) ↦ ground (arith, given, asked, matched, failed, h)
        | inl (path, read) ↦
            let answer : record {
              container_pid = info.pid;
              netns_path = netns_path_for_pid info.pid;
              host_veth_ifindex = host.index;
              host_veth_name = host.name;
              pod_eth0_ifindex = index;
              cgroup_v2_path = path;
            }
                ≡ res =
              ground (arith, given, asked, matched, read, h) in
            subst (IsOfPod cri nl cgroup_of ref) answer (record {
              named = λ e. ground (arith, given, eq_iff ref.container_id "", e);
              info = info;
              asked = asked;
              process = refl;
              host = host;
              paired = match_host_veth-Paired nl (pod_sys_class_net info.pid) host index matched;
              interface = (refl, refl);
              cgroup = read;
            })
      ]
    ]
  ]
]

-- No link of the host has an empty name, so that a resolver on it meets `IsNamed`.
pub resolve-IsNamed :
    (node : NodeHost)
    → ((i : ℤ) (l : Link) → node.link_by_index i ≡ ok l → l.name ≢ "")
    → IsNamed (some (resolve (container_info node) (netlink_impl node) (read_cgroup_v2_path node)))
unfolding host_link_of
resolve-IsNamed node links found same pod res answer empty =
    let found_it : resolve (container_info node) (netlink_impl node) (read_cgroup_v2_path node) pod
        ≡ ok res =
      ap (λ (o : Option Resolver). elim o [ none ↦ err "" | some f ↦ f pod ]) same ∙ answer in
    let of_pod = resolve-IsOfPod _ _ _ pod res found_it in
    links _ of_pod.host (wrap-ok _ _ of_pod.paired.of_host) (sym of_pod.interface.0 ∙ empty)
