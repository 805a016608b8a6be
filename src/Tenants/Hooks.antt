-- ===== src/Tenants/Hooks.antt =====
-- `TenantLifecycleHooks` of contracts.py. What a hook does is not this program's: `outcome` tells
-- whether the hook of an owner raises.
use businessos.Prelude.{String, Option, none, some, List, [], ◌∷◌, ◌++◌, string_eq}
use businessos.Prelude.Dict.{Dict, get, put}
use businessos.Prelude.Sorting.{sorted, str_leb}
use businessos.Errors.{Error, Result, ok, err, value_error}
use businessos.Tenants.Tables.{Operation, export, delete, restore}

-- The hooks by their owner; `H` is what the program holds of a hook.
unfoldable pub register : {H : Type 0} → String → H → Dict String H → Result (Dict String H)
register owner hook hooks = elim (get hooks owner) [
  | some h ↦ err value_error
  | none ↦ ok (put hooks owner hook)
]

abbrev reversed : List String → List String
reversed [] = []
reversed (x ∷ xs) = reversed xs ++ x ∷ []

-- The owners in the order in which the operation calls them.
unfoldable pub call_order : Operation → List String → List String
call_order export owners = sorted str_leb owners
call_order delete owners = reversed (sorted str_leb owners)
call_order restore owners = sorted str_leb owners

-- The owners whose hooks were called, and whether the last of them raised.
unfoldable pub call_hooks : (String → Option Error) → List String → Result (Unit {0}) × List String
call_hooks outcome [] = (ok tt, [])
call_hooks outcome (owner ∷ owners) =
    let (result, called) = call_hooks outcome owners in
    elim (outcome owner) [ some e ↦ (err e, owner ∷ []) | none ↦ (result, owner ∷ called) ]

unfoldable pub run_hooks :
    (String → Option Error) → Operation → List String → Result (Unit {0}) × List String
unfolding call_order call_hooks
run_hooks outcome operation owners = call_hooks outcome (call_order operation owners)
