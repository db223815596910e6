-- ===== src/Daemon/Store.antt =====
-- internal/daemon/execution.go: the store of executions. Its mutex makes each method one step.
use chaosplane.Prelude.{String, Option, List, [], ◌∷◌, Dict, lookup, insert, remove}
use chaosplane.Api.Meta.{Time}

pub record ExecutionInfo : Type 0 where
  pub id : String
  pub experiment_id : String
  pub kind : String  -- Type
  pub status : String
  pub start_time : Time
  pub parameters : Dict String

pub record ExecutionStore : Type 0 where
  pub executions : Dict ExecutionInfo

unfoldable pub new_execution_store : ExecutionStore
new_execution_store = record { executions = [] }

unfoldable pub add : String → ExecutionInfo → ExecutionStore → ExecutionStore
add id info s = record { executions = insert id info s.executions }

unfoldable pub drop : String → ExecutionStore → ExecutionStore
drop id s = record { executions = remove id s.executions }

unfoldable pub get : String → ExecutionStore → Option ExecutionInfo
get id s = lookup id s.executions

-- The order is that of Go's range over the map, an order of the list here.
unfoldable pub list : ExecutionStore → List ExecutionInfo
list s = values s.executions
  where
    values : Dict ExecutionInfo → List ExecutionInfo
    values [] = []
    values ((id, info) ∷ m) = info ∷ values m
