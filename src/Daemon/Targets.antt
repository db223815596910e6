-- ===== src/Daemon/Targets.antt =====
-- The targets that internal/daemon/server.go resolves have a name, where those of its resolver do.
use chaosplane.Prelude.{
  ◌≡◌, ◌≢◌, inl, inr, refl, String, true, false, Option, none, some, arith, ◌==◌, string_eq, eq_iff,
  if◌then◌else◌, ℤ, Dict, text_at,
}
use chaosplane.Api.Meta.{ok, Result-cases}
use chaosplane.Daemon.Host.{PodTarget}
use chaosplane.Daemon.Server.{
  PodRef, Resolution, Resolver, NetworkChaosRequest, call_resolver, resolve_target,
  call_pod_resolver, resolve_pod_target,
}

-- The resolver finds no pod whose interface has an empty name.
abbrev pub IsNamed : Option Resolver → Type 0
IsNamed resolver =
    (resolve : Resolver)
    → resolver ≡ some resolve
    → (pod : PodRef) (res : Resolution) → resolve pod ≡ ok res
    → res.host_veth_name ≢ ""

-- Scoped to a pod, and then with the name of its interface.
abbrev pub IsScoped : PodTarget → Type 0
IsScoped t = t.scoped ≡ (if t.host_veth == "" then false else true)

module _ (resolve : Resolver)
    (named : (pod : PodRef) (res : Resolution)
      → resolve pod ≡ ok res
      → res.host_veth_name ≢ "") where
  call_resolver-named :
      (req : NetworkChaosRequest) (iface : String) (i : ℤ)
      → call_resolver resolve req ≡ ok (iface, i)
      → iface ≢ ""
  unfolding call_resolver
  call_resolver-named req iface i e =
      let pod : PodRef = record {
        namespace = req.namespace;
        name = req.pod_name;
        container_id = req.container_id;
        node_name = req.node_name;
      } in
      elim (Result-cases (resolve pod)) [
        | inl (res, found) ↦ ground (arith, found, e, named pod res found)
        | inr (failure, found) ↦ ground (arith, found, e)
      ]

  call_pod_resolver-IsScoped :
      (params : Dict String) (t : PodTarget) → call_pod_resolver resolve params ≡ ok t → IsScoped t
  unfolding call_pod_resolver
  call_pod_resolver-IsScoped params t e =
      let pod : PodRef = record {
        namespace = text_at "podNamespace" params;
        name = text_at "podName" params;
        container_id = text_at "containerId" params;
        node_name = text_at "nodeName" params;
      } in
      elim (Result-cases (resolve pod)) [
        | inl (res, found) ↦
            ground (arith, found, e, named pod res found, eq_iff res.host_veth_name "")
        | inr (failure, found) ↦ ground (arith, found, e)
      ]

pub resolve_target-named :
    (resolver : Option Resolver)
    → IsNamed resolver
    → (req : NetworkChaosRequest) (iface : String) (i : ℤ)
    → resolve_target resolver req ≡ ok (iface, i)
    → iface ≢ ""
unfolding resolve_target
resolve_target-named none named req iface i e =
    ground (arith, e, eq_iff req.target_iface "", eq_iff iface "", eq_iff "eth0" "")
resolve_target-named (some resolve) named req iface i e = ground (
  arith,
  e,
  eq_iff req.target_iface "",
  eq_iff iface "",
  eq_iff "eth0" "",
  call_resolver-named resolve (named resolve refl) req iface i,
)

pub resolve_pod_target-IsScoped :
    (resolver : Option Resolver)
    → IsNamed resolver
    → (params : Dict String) (t : PodTarget) → resolve_pod_target resolver params ≡ ok t
    → IsScoped t
unfolding resolve_pod_target
resolve_pod_target-IsScoped none named params t e = ground (arith, e, eq_iff t.host_veth "")
resolve_pod_target-IsScoped (some resolve) named params t e = ground (
  arith,
  e,
  eq_iff t.host_veth "",
  call_pod_resolver-IsScoped resolve (named resolve refl) params t,
)
