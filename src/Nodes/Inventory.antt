-- ===== src/Nodes/Inventory.antt =====
-- The worker nodes that can be allocated (NodeRecord and InMemoryNodeInventory of
-- diagnostic_platform/node_allocation.py). The nodes that a call returns are the objects of the
-- inventory; the model returns their values beside the inventory it leaves.
use gds2_automation.Base.{
  String, Bool, true, false, ◌&&◌, ◌||◌, Option, none, some, List, [], ◌∷◌, filter, Result, ok, err,
  key_error, no_capacity_error, ◌>>=◌, if◌then◌else◌, string_eq,
}
use gds2_automation.Base.Dict.{Dict, values}
use gds2_automation.Base.Dict

pub data NodeState : Type 0 where
  idle allocating booting in_use draining unhealthy : NodeState

pub record NodeRecord : Type 0 where
  pub node_id : String
  pub zone : String
  pub metro : String
  pub api_base_url : String
  pub tunnel_host : String
  pub state : NodeState
  pub healthy : Bool
  pub current_session_id : Option String

abbrev pub Inventory : Type 0
Inventory = Dict String NodeRecord

unfoldable pub is_idle : NodeState → Bool
is_idle idle = true
is_idle _ = false

unfoldable pub is_booting : NodeState → Bool
is_booting booting = true
is_booting _ = false

unfoldable pub is_allocating : NodeState → Bool
is_allocating allocating = true
is_allocating _ = false

-- What `healthy_idle_nodes` selects and `claim` asks for.
unfoldable pub is_available : NodeRecord → Bool
is_available n = is_idle n.state && n.healthy

-- Of nodes with the same id the last is held, at the place of the first.
unfoldable pub hold : Inventory → List NodeRecord → Inventory
hold inv [] = inv
hold inv (n ∷ ns) = hold (Dict.put inv n.node_id n) ns

unfoldable pub init : List NodeRecord → Inventory
init nodes = hold [] nodes

found_node : Option NodeRecord → Result NodeRecord
found_node none = err key_error
found_node (some n) = ok n

unfoldable pub get : Inventory → String → Result NodeRecord
unfolding found_node
get inv node_id = found_node (Dict.get inv node_id)

unfoldable pub healthy_idle_nodes : Inventory → List NodeRecord
healthy_idle_nodes inv = filter is_available (values inv)

unfoldable pub pending_capacity_nodes : Inventory → List NodeRecord
pending_capacity_nodes inv = filter (λ n. is_allocating n.state || is_booting n.state) (values inv)

-- Writes to the node that the inventory holds under an id.
unfoldable pub changed : Inventory → String → NodeRecord → NodeRecord × Inventory
changed inv node_id n = (n, Dict.put inv node_id n)

unfoldable pub claim_found :
    Inventory → String → String → NodeRecord → Result (NodeRecord × Inventory)
claim_found inv node_id session_id n =
    if is_available n
    then ok
        (changed inv node_id (record n { state = in_use; current_session_id = some session_id }))
    else err no_capacity_error

unfoldable pub claim : Inventory → String → String → Result (NodeRecord × Inventory)
claim inv node_id session_id = get inv node_id >>= claim_found inv node_id session_id

unfoldable pub release : Inventory → String → NodeState → Bool → Result (NodeRecord × Inventory)
release inv node_id next_state healthy = get inv node_id >>= λ n. ok (
    changed inv node_id
      (record n { state = next_state; healthy = healthy; current_session_id = none }))

unfoldable pub bind_session : Inventory → String → String → Result (NodeRecord × Inventory)
bind_session inv node_id session_id = get inv node_id >>= λ n.
    ok (changed inv node_id (record n { current_session_id = some session_id }))

unfoldable pub register : Inventory → NodeRecord → NodeRecord × Inventory
register inv n = changed inv n.node_id n

unfoldable pub mark_ready : Inventory → String → Result (NodeRecord × Inventory)
mark_ready inv node_id = get inv node_id >>= λ n.
    ok (changed inv node_id (record n { state = idle; healthy = true; current_session_id = none }))
