-- ===== src/Examples/Games.antt =====
-- What the theorems of Room say of starting a game, choosing teams and acting in a battle.
use pokemon_simulator_server.Base.{
  ◌≤◌, ◌≡◌, ◌⊎◌, refl, Option, some, none, List, [], ◌∷◌, ◌++◌, pos, lookup, insert, string_eq,
  string_order, sort, length, str_eq, if◌then◌else◌, arith, Permᴰ,
}
use pokemon_simulator_server.Protocol.{Pokemon, float64, not_a_number}
use pokemon_simulator_server.Engine.Instance.{node, get_node, get_node_by_pod_index}
use pokemon_simulator_server.Room.GameRoom.{
  GameRoom, InitJson, waiting, battle_side_for_player, build_battle_init, room_sessions, sort_by_id,
  insert_by_id, init_of_sorted, side_among,
}
use pokemon_simulator_server.Room.Env.{EngineCall}
use pokemon_simulator_server.Room.Manager.{Server, set_room_id}
use pokemon_simulator_server.Room.Manager.Exit.{Succeeds}
use pokemon_simulator_server.Room.Game.{StartTask, start_game, run_start_task, target_node}
use pokemon_simulator_server.Room.Game.Start.{run_start_task_lem, run_start_task-calls}
use pokemon_simulator_server.Room.Game.Launch.{IsLaunched, IsRefused, start_game_lem}
use pokemon_simulator_server.Room.Game.Select.{select_team}
use pokemon_simulator_server.Room.Game.Select.Teams.{AreStored, select_team-refused}
use pokemon_simulator_server.Room.Game.Action.{
  handle_battle_action, battle_action_in, forward_battle_action, forward_injected,
  inject_battle_side, inject_parsed,
}
use pokemon_simulator_server.Room.Invariant.{IsRoom}
use pokemon_simulator_server.Room.Invariant.Sends.{OnlySends, handle_battle_action-OnlySends}
use pokemon_simulator_server.Room.Sides.{battle_side-build_battle_init}
use pokemon_simulator_server.Examples.Data.{
  env, hash, people, two_wait, two_play, server_with, engine, full_node, pokemon_with,
}

abbrev init : InitJson
init = record {
  side_a = record { name = "ann"; pokemon = [] };
  side_b = record { name = "bob"; pokemon = [] };
  seed = 7;
}

two_wait-IsRoom : IsRoom people ("r", two_wait)
two_wait-IsRoom = record {
  named = refl;
  flagged = refl;
  occupied = omega arith;
  capped = omega arith;
  players = ((refl, omega arith), ((refl, omega arith), tt));
}

init_built : build_battle_init hash "r" (room_sessions two_wait people) ≡ some init
unfolding build_battle_init sort_by_id insert_by_id init_of_sorted
init_built = refl

-- The sessions of the room, visited the other way round.
abbrev two_turned : GameRoom
two_turned = record two_play { sessions = ("ann", 0) ∷ ("bob", 1) ∷ [] }

battle_side-build_battle_init_example : battle_side_for_player two_turned "bob" ≡ (
    if str_eq "bob" init.side_a.name
    then some "a"
    else if str_eq "bob" init.side_b.name
    then some "b"
    else none)
battle_side-build_battle_init_example =
    battle_side-build_battle_init hash people "r" two_wait two_turned "bob" two_wait-IsRoom
      (Permᴰ.swap refl refl) init_built

abbrev waiting_server : Server
waiting_server = server_with (("r", two_wait) ∷ [])

abbrev playing_server : Server
playing_server = server_with (("r", two_play) ∷ [])

start_game_lem_example :
    let s = start_game env engine "r" two_wait waiting_server in
    IsLaunched env engine "r" two_wait waiting_server s
    ⊎ IsRefused env engine "r" two_wait waiting_server s
start_game_lem_example = start_game_lem env engine "r" two_wait waiting_server refl

abbrev task : StartTask
task = record { room_id = "r"; target_node_id = pos 0; init_json = "init" }

r_plays : lookup "r" playing_server.rooms ≡ some two_play
unfolding lookup
r_plays = refl

cpp_0_targeted : target_node env engine task ≡ node full_node
unfolding target_node get_node_by_pod_index get_node lookup
cpp_0_targeted = refl

run_start_task_lem_example :
    let w = run_start_task env engine task playing_server in
    (Succeeds (env.call_create_room (some 10) "r" "init") 1 4 × (w.rooms ≡ playing_server.rooms))
    ⊎ ((Succeeds (env.call_create_room (some 10) "r" "init") 1 4 → ⊥)
        × (w.rooms ≡ insert "r" (record two_play { status = waiting }) playing_server.rooms))
run_start_task_lem_example =
    run_start_task_lem env engine task playing_server two_play full_node r_plays cpp_0_targeted

run_start_task-calls_example :
    (more : List EngineCall) × ((run_start_task env engine task playing_server).calls ≡ [] ++ more)
    × (length more ≤ 3)
run_start_task-calls_example =
    run_start_task-calls env engine task playing_server two_play full_node r_plays cpp_0_targeted

-- The team as it is refused: one Pokémon, and one whose ability is no number.
abbrev good_one : Pokemon
good_one = pokemon_with (float64 (pos 9))

abbrev bad_one : Pokemon
bad_one = pokemon_with not_a_number

select_team-refused_example :
    let s = select_team env engine "r" two_wait 1 (good_one ∷ bad_one ∷ []) waiting_server in
    AreStored (good_one ∷ []) (s.0.heap.cell 1).selected_pokemon
    × (s.0.manager ≡ waiting_server.manager)
    × (s.1 ≡ none)
select_team-refused_example =
    select_team-refused env engine "r" two_wait 1 (good_one ∷ []) bad_one [] waiting_server
      (omega arith) ((pos 9, refl), tt) refl

-- ann's session in the battle of the room.
abbrev in_battle : Server
in_battle = record playing_server { heap = set_room_id people 0 "r" }

abbrev or_else : Server → Option Server → Server
or_else v none = v
or_else v (some w) = w

abbrev acted : Server
acted = or_else playing_server (handle_battle_action env engine 0 "{}" in_battle)

ann_acted : handle_battle_action env engine 0 "{}" in_battle ≡ some acted
unfolding handle_battle_action battle_action_in forward_battle_action inject_battle_side
    inject_parsed battle_side_for_player side_among sort string_order forward_injected lookup
ann_acted = refl

handle_battle_action-OnlySends_example : OnlySends in_battle acted
handle_battle_action-OnlySends_example =
    handle_battle_action-OnlySends env engine 0 "{}" in_battle ann_acted
