-- ===== src/Executor/Lookup.antt =====
-- The registry as a partial function from action types to executors.
use chaosplane.Prelude.{
  ◌+◌, ◌⊎◌, String, ◌≡◌, ◌≢◌, refl, Option, none, some, [], ◌∷◌, arith, string_eq, eq_iff,
  if◌then◌else◌, length, Dict, insert, lookup, is_some,
}
use chaosplane.Api.Meta.{Result, ok, err}
use chaosplane.Executor.{Executor, Registry, register, get, must_register, count}

-- What `Get` finds: the error's text set aside.
abbrev pub found : Result Executor → Option Executor
found (ok x) = some x
found (err e) = none

count-insert :
    (a : String) (x : Executor) (m : Dict Executor)
    → length (insert a x m) ≡ (if is_some (lookup a m) then length m else length m + 1)
unfolding insert lookup
count-insert a x [] = refl
count-insert a x ((b, y) ∷ m) = ground (arith, eq_iff b a, count-insert a x m)

-- `MustRegister` panics exactly on an action type that `Get` finds; otherwise it registers the
-- executor and the registry grows by one.
pub must_register_lem :
    (r : Registry) (a : String) (x : Executor)
    → ((must_register r a x ≡ none) × (found (get r a) ≢ none))
      ⊎ ((must_register r a x ≡ some (register r a x))
          × (found (get r a) ≡ none)
          × (count (register r a x) ≡ count r + 1))
unfolding must_register get register count
must_register_lem r a x = ground (arith, count-insert a x r.executors)
