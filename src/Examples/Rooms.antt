-- ===== src/Examples/Rooms.antt =====
-- What the theorems of Room say of servers with one room, of its sessions, and of a short run.
use pokemon_simulator_server.Base.{
  ℕ, ◌≤◌, ◌≡◌, ◌↔◌, refl, String, true, false, some, none, [], ◌∷◌, pos, lookup, insert, string_eq,
  is_some, length, All, str_eq, if◌then◌else◌, arith,
}
use pokemon_simulator_server.Engine.Instance.{get_node, get_node_by_pod_index}
use pokemon_simulator_server.Protocol.{response, code_success, Payload, Value}
use pokemon_simulator_server.Room.Session.{
  Session, IsBounded, history, send_response, send_response_lem,
}
use pokemon_simulator_server.Room.Heap.{reply}
use pokemon_simulator_server.Room.GameRoom.{GameRoom}
use pokemon_simulator_server.Room.Env.{destroy_room_call}
use pokemon_simulator_server.Room.Manager.{
  Server, new_room, admitted, create_room, draw_room_id, join_room, judge_join, join_known,
  set_room_id,
}
use pokemon_simulator_server.Room.Manager.Closing.{leave_room, send_destroy_room_request_sync}
use pokemon_simulator_server.Room.Manager.Enter.{
  MayJoin, lone_room, create_room_lem, create_room-total, join_room-accepts, join_room-admits,
  join_room-refuses,
}
use pokemon_simulator_server.Room.Manager.Exit.{
  Succeeds, remainder, leave_room_lem, send_destroy_room_request_sync_lem,
}
use pokemon_simulator_server.Room.Invariant.{IsServer}
use pokemon_simulator_server.Room.Invariant.Steps.{World, Step, Reach, Reach-IsServer}
use pokemon_simulator_server.Examples.Stores.{memory, codec_r}
use pokemon_simulator_server.Examples.Data.{
  env, people, session_of, ann_waits, two_play, server_with, hello, engine, full_node,
}

abbrev ann : Session
ann = session_of "ann"

send_response_lem_example :
    let t = send_response env.marshals ann hello in
    (history t ≡ hello ∷ [])
    × (t.taken ≡ [])
    × IsBounded t
    × (t.room_id ≡ "")
    × (t.player ≡ ann.player)
    × (t.conn ≡ some 1)
    × (t.selected_pokemon ≡ [])
send_response_lem_example = send_response_lem env.marshals ann hello (omega arith) refl

abbrev pub empty_server : Server
empty_server = server_with []

abbrev one_waits : Server
one_waits = server_with (("r", ann_waits) ∷ [])

abbrev full_server : Server
full_server = server_with (("r", two_play) ∷ [])

-- The server after bob has created "s" beside the room "r".
abbrev with_s : Server
with_s = record (server_with (("r", ann_waits) ∷ ("s", new_room "s" "bob" 1) ∷ [])) {
  heap =
      reply env.marshals 1
        (response "create_room_res" code_success "房间创建成功"
          (Payload.object (("room_id", Value.text "s") ∷ [])))
        (set_room_id people 1 "s");
}

s_created : create_room env ("r" ∷ "s" ∷ []) 1 one_waits ≡ some ("s", with_s)
unfolding create_room draw_room_id lookup insert
s_created = refl

create_room_lem_example :
    (lookup "s" one_waits.rooms ≡ none)
    × ((k : String)
        → lookup k with_s.rooms
          ≡ (if str_eq "s" k then some (lone_room "s" "bob" 1) else lookup k one_waits.rooms))
    × ((with_s.heap.cell 1).room_id ≡ "s")
create_room_lem_example = create_room_lem env ("r" ∷ "s" ∷ []) 1 one_waits s_created

s_free : lookup "s" one_waits.rooms ≡ none
unfolding lookup
s_free = refl

create_room-total_example : is_some (create_room env ("r" ∷ "s" ∷ []) 1 one_waits) ≡ true
create_room-total_example = create_room-total env ("r" ∷ []) "s" [] 1 one_waits s_free

join_room-accepts_example :
    ((join_room env "r" 1 one_waits).1.0 ≡ true) ↔ ((r : GameRoom) × MayJoin env one_waits "r" 1 r)
join_room-accepts_example = join_room-accepts env "r" 1 one_waits

bob-MayJoin : MayJoin env one_waits "r" 1 ann_waits
unfolding lookup
bob-MayJoin = record { found = refl; new_here = refl; open_room = refl; space = omega arith }

join_room-admits_example :
    let w = (join_room env "r" 1 one_waits).0 in
    ((k : String)
      → lookup k w.rooms
        ≡ (if str_eq "r" k then some (admitted ann_waits "bob" 1) else lookup k one_waits.rooms))
    × (length (admitted ann_waits "bob" 1).sessions ≡ 2)
    × (lookup "bob" (admitted ann_waits "bob" 1).ready_players ≡ some false)
    × ((w.heap.cell 1).room_id ≡ "r")
join_room-admits_example = join_room-admits env "r" 1 one_waits ann_waits bob-MayJoin

eve_refused : (join_room env "r" 2 full_server).1.0 ≡ false
unfolding join_room lookup judge_join join_known
eve_refused = refl

join_room-refuses_example :
    let w = (join_room env "r" 2 full_server).0 in
    (w.manager ≡ full_server.manager)
    × ((q : ℕ) → (w.heap.cell q).room_id ≡ (full_server.heap.cell q).room_id)
join_room-refuses_example = join_room-refuses env "r" 2 full_server eve_refused

r_found : lookup "r" full_server.rooms ≡ some two_play
unfolding lookup
r_found = refl

leave_room_lem_example :
    let w = leave_room env (some engine) "r" 1 full_server in
    ((k : String)
      → lookup k w.rooms
        ≡ (if str_eq "r" k then remainder two_play "bob" else lookup k full_server.rooms))
    × ((w.heap.cell 1).room_id ≡ "")
leave_room_lem_example = leave_room_lem env (some engine) "r" 1 full_server two_play r_found

cpp_0_found : get_node_by_pod_index engine (pos 0) ≡ some full_node
unfolding get_node_by_pod_index get_node lookup
cpp_0_found = refl

send_destroy_room_request_sync_lem_example :
    let sent = send_destroy_room_request_sync env (some engine) "r" (pos 0) in
    ((sent.0 ≡ true) ↔ Succeeds (env.call_destroy_room (some 10) "r") 1 4)
    × (length sent.1 ≤ 3)
    × All (λ c. c ≡ destroy_room_call (some 10) "r") sent.1
send_destroy_room_request_sync_lem_example =
    send_destroy_room_request_sync_lem env engine "r" (pos 0) full_node cpp_0_found

-- bob creates "s" beside nothing else, and eve joins it.
abbrev pub s_only : Server
s_only = record with_s {
  manager = record { rooms = ("s", new_room "s" "bob" 1) ∷ []; all_sessions = [] };
}

pub s_only_created : create_room env ("s" ∷ []) 1 empty_server ≡ some ("s", s_only)
unfolding create_room draw_room_id lookup insert
s_only_created = refl

abbrev world : Server → World
world v = record { server = v; tasks = [] }

created_and_joined :
    Reach memory codec_r (world empty_server) (world (join_room env "s" 2 s_only).0)
unfolding reply
created_and_joined =
    Reach.then
      (Reach.then Reach.here (
        Step.created env ("s" ∷ []) 1 (world empty_server) "s" s_only (omega arith) s_only_created))
      (Step.joined env "s" 2 (world s_only) (omega arith))

Reach-IsServer_example : IsServer (join_room env "s" 2 s_only).0
Reach-IsServer_example = Reach-IsServer memory codec_r created_and_joined tt
