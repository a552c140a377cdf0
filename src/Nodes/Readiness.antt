-- ===== src/Nodes/Readiness.antt =====
-- The promotion of booting nodes (BootingNodeReadinessMonitor.poll_once of
-- diagnostic_platform/node_allocation.py). What the probe returns or raises is a parameter.
use gds2_automation.Base.{
  Bool, false, Option, none, some, List, [], ◌∷◌, ◌++◌, Result, ok, err, ◌>>=◌, if◌then◌else◌,
  string_eq,
}
use gds2_automation.Base.Dict
use gds2_automation.Nodes.Inventory.{NodeRecord, is_booting, Inventory, pending_capacity_nodes}
use gds2_automation.Nodes.Inventory

-- The inventory's object of a node, as it is now.
unfoldable pub now : NodeRecord → Option NodeRecord → NodeRecord
now n none = n
now n (some m) = m

-- A probe that raises is one that says no.
unfoldable pub is_ready : Result Bool → Bool
is_ready (ok ready) = ready
is_ready (err e) = false

unfoldable pub promoted : Result (NodeRecord × Inventory) → Result (List NodeRecord × Inventory)
promoted (err e) = err e
promoted (ok (n, inv)) = ok (n ∷ [], inv)

unfoldable pub gathered :
    List NodeRecord → Result (List NodeRecord × Inventory) → Result (List NodeRecord × Inventory)
gathered ready (err e) = err e
gathered ready (ok (others, inv)) = ok (ready ++ others, inv)

module _ (probe : NodeRecord → Result Bool) where
  unfoldable pub should_promote : NodeRecord → Bool
  should_promote n = if is_booting n.state then is_ready (probe n) else false

  unfoldable pub promote : Inventory → NodeRecord → Result (List NodeRecord × Inventory)
  promote inv n =
      if should_promote (now n (Dict.get inv n.node_id))
      then promoted (Inventory.mark_ready inv n.node_id)
      else ok ([], inv)

  unfoldable pub promote_each : Inventory → List NodeRecord → Result (List NodeRecord × Inventory)
  promote_each inv [] = ok ([], inv)
  promote_each inv (n ∷ ns) =
      promote inv n >>= λ (ready, inv'). gathered ready (promote_each inv' ns)

  unfoldable pub poll_once : Inventory → Result (List NodeRecord × Inventory)
  poll_once inv = promote_each inv (pending_capacity_nodes inv)
