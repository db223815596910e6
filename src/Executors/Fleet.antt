-- ===== src/Executors/Fleet.antt =====
-- The network executors (internal/executor/network) before the daemons of all nodes (internal/daemon):
-- each call reaches the server at its endpoint.
use chaosplane.Prelude.{
  ℕ, suc, ◌≤◌, ◌+◌, ◌≡◌, refl, String, Option, none, some, List, [], ◌∷◌, ◌++◌, ◌==◌, string_eq,
  if◌then◌else◌, Dict, lookup,
}
use chaosplane.Api.Meta.{Error, ok, err}
use chaosplane.Daemon.Store.{ExecutionInfo}
use chaosplane.Daemon.Host.{Runner}
use chaosplane.Daemon.Server.{Server, Stamp, NetworkChaosRequest}
use chaosplane.Daemon.Handlers.{exec_network_chaos}
use chaosplane.Daemon.Cancel.{cancel_chaos}
use chaosplane.Daemon.Claims.{Claim}
use chaosplane.Daemon.Targets.{IsNamed}
use chaosplane.Daemon.Outstanding.{outstanding}
use chaosplane.Executors.Network.{Daemons, ExecutionRecord}

-- The servers by endpoint, and how many stamps have been given out.
pub record Fleet (H : Type 0) : Type 0 where
  pub server : String → Server H
  pub issued : ℕ

abbrev pub put {ℓ} : {A : Type ℓ} → String → A → (String → A) → String → A
put e a f = λ x. if x == e then a else f x

-- How a node is reached: the error of the client factory for an endpoint, which does not connect, and
-- the error of a call whose daemon the network does not reach.
pub record Links : Type 0 where
  pub dial : String → Option Error
  pub call : String → Option Error

abbrev pub Reachable : Links → String → Type 0
Reachable links e = (links.dial e ≡ none) × (links.call e ≡ none)

-- A call of a daemon that is not reached fails before it is served; any other call is answered.
abbrev pub fleet_daemons : {H : Type 0} → Runner H → (ℕ → Stamp) → Links → Daemons (Fleet H)
fleet_daemons os stamps links = record {
  dial = links.dial;
  exec_network_chaos = λ e req w. elim (links.call e) [
    | some failure ↦ (w, err failure)
    | none ↦
        let (s, resp) = exec_network_chaos os (stamps w.issued) (w.server e) req in
        (record { server = put e s w.server; issued = suc w.issued }, ok resp)
  ];
  cancel_chaos = λ e id w. elim (links.call e) [
    | some failure ↦ (w, err failure)
    | none ↦
        let (s, resp) = cancel_chaos os id (w.server e) in
        (record w { server = put e s w.server }, ok resp)
  ];
}

module _ {H : Type 0} (os : Runner H) (stamps : ℕ → Stamp) (links : Links) where
  pub exec-reached :
      (e : String) (req : NetworkChaosRequest) (w : Fleet H)
      → links.call e ≡ none
      → (fleet_daemons os stamps links).exec_network_chaos e req w ≡ (
        record {
          server = put e (exec_network_chaos os (stamps w.issued) (w.server e) req).0 w.server;
          issued = suc w.issued;
        },
        ok (exec_network_chaos os (stamps w.issued) (w.server e) req).1,
      )
  exec-reached e req w l = rw l refl

  pub exec-unreached :
      (e : String) (req : NetworkChaosRequest) (w : Fleet H) (failure : Error)
      → links.call e ≡ some failure
      → (fleet_daemons os stamps links).exec_network_chaos e req w ≡ (w, err failure)
  exec-unreached e req w failure l = rw l refl

  pub cancel-reached :
      (e id : String) (w : Fleet H)
      → links.call e ≡ none
      → (fleet_daemons os stamps links).cancel_chaos e id w ≡ (
        record w { server = put e (cancel_chaos os id (w.server e)).0 w.server },
        ok (cancel_chaos os id (w.server e)).1,
      )
  cancel-reached e id w l = rw l refl

-- The IDs that are still to be given out stand in no store, and are all different.
pub record IsFresh {H : Type 0} (stamps : ℕ → Stamp) (w : Fleet H) : Type 0 where
  pub different : (m n : ℕ) → (stamps m).id ≡ (stamps n).id → m ≡ n
  pub unused :
      (e : String) (n : ℕ)
      → w.issued ≤ n
      → lookup (stamps n).id (w.server e).store.executions ≡ none

-- The IDs that records name at an endpoint, in order.
abbrev pub ids_at : String → List ExecutionRecord → List String
ids_at e [] = []
ids_at e (rec ∷ recs) =
    let rest = ids_at e recs in if e == rec.endpoint then rec.execution_id ∷ rest else rest

abbrev pub keys : Dict ExecutionInfo → List String
keys [] = []
keys ((id, info) ∷ m) = id ∷ keys m

-- None of these IDs stands in a map.
abbrev pub Apart : Dict ExecutionInfo → List String → Type 0
Apart m [] = Unit
Apart m (id ∷ ids) = (lookup id m ≡ none) × Apart m ids

-- A server differs from a former one in some executions: they stand behind the former ones in the
-- store, and the host holds their claims besides.
pub record Ahead {H : Type 0} (held : H → Claim → ℕ) (former s : Server H)
    (added : Dict ExecutionInfo) : Type 0 where
  pub stored : s.store.executions ≡ former.store.executions ++ added
  pub holds : (c : Claim) → held s.host c ≡ held former.host c + outstanding c added
  pub apart : Apart former.store.executions (keys added)
  pub is_named : IsNamed s.resolver

-- A fleet is ahead of a former one by the executions that records name.
pub record Owes {H : Type 0} (held : H → Claim → ℕ) (former w : Fleet H)
    (recs : List ExecutionRecord) : Type 0 where
  pub added : String → Dict ExecutionInfo
  pub ahead : (e : String) → Ahead held (former.server e) (w.server e) (added e)
  pub listed : (e : String) → ids_at e recs ≡ keys (added e)
