-- ===== src/Examples/Engines.antt =====
-- What the theorems of Engine say of an engine with an idle, a full and a broken node.
use pokemon_simulator_server.Base.{
  ◌≡◌, refl, true, some, ℤ, pos, Permᴰ, keys, lookup, integer_eq, sort, int_order, int_eq_iff,
  arith,
}
use pokemon_simulator_server.Engine.Node.{EngineNode, snapshot, lt_70}
use pokemon_simulator_server.Engine.Instance.{
  get_node, get_status, count_nodes, count_node, get_node_for_room, pick_preferred_node_for_room,
  collect, consider, is_full, effective_max, candidates, choose, pick_among, get_node_by_pod_index,
}
use pokemon_simulator_server.Engine.Pick.Collect.{HasRoom}
use pokemon_simulator_server.Engine.Pick.{
  pick_some, pick_prefers_light, pick_total, pick_order, Assigned, get_node_for_room-Assigned,
}
use pokemon_simulator_server.Room.Failover.{pick_healthy_node_for_room, pick_index, healthy_indices}
use pokemon_simulator_server.Examples.Data.{hash, engine, engine_turned, idle_node}

picked : pick_preferred_node_for_room hash engine "r" ≡ some idle_node
unfolding pick_preferred_node_for_room collect consider is_full effective_max snapshot lt_70
    get_node lookup candidates choose sort int_order pick_among get_node_by_pod_index
picked = refl

idle_found : get_node engine (pos 1) ≡ some idle_node
unfolding get_node lookup
idle_found = refl

idle_is_light : lt_70 idle_node.cpu_usage ≡ true
unfolding lt_70
idle_is_light = refl

pick_some_example : ((i : ℤ) × (get_node engine i ≡ some idle_node)) × HasRoom idle_node
pick_some_example = pick_some hash engine "r" picked

pick_prefers_light_example : lt_70 idle_node.cpu_usage ≡ true
pick_prefers_light_example =
    pick_prefers_light hash engine "r" (pos 1) idle_found (refl, refl) idle_is_light picked

pick_total_example : (n : EngineNode) × (pick_preferred_node_for_room hash engine "r" ≡ some n)
pick_total_example = pick_total hash engine "r" (pos 1) idle_found (refl, refl)

turned : Permᴰ (keys engine.nodes) (keys engine_turned.nodes)
turned = Permᴰ.cons refl (Permᴰ.swap refl refl)

same_node : (i : ℤ) → get_node engine i ≡ get_node engine_turned i
unfolding get_node lookup
same_node i = ground (arith, int_eq_iff (pos 1) i, int_eq_iff (pos 2) i)

pick_order_example :
    pick_preferred_node_for_room hash engine "r"
    ≡ pick_preferred_node_for_room hash engine_turned "r"
pick_order_example = pick_order hash engine engine_turned turned same_node "r"

get_node_for_room-Assigned_example : Assigned engine (get_node_for_room hash engine "r")
get_node_for_room-Assigned_example = get_node_for_room-Assigned hash engine "r"

moved_to_idle : pick_healthy_node_for_room hash (some engine) "r" (pos 0) ≡ some idle_node
unfolding pick_healthy_node_for_room pick_index healthy_indices get_status count_nodes count_node
    snapshot get_node lookup choose sort int_order get_node_by_pod_index
moved_to_idle = refl
