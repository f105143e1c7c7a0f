-- ===== src/Room/Game/Launch.antt =====
-- internal/room/game.go: what StartGame decides for a room, before its goroutine runs.
use pokemon_simulator_server.Base.{
  ◌≡◌, ◌⊎◌, refl, ◌∙◌, ap, String, true, ℤ, string_eq, str_eq, lookup, length, ltb, Option, some,
  none, if◌then◌else◌, Bool-cases, inl, inr,
}
use pokemon_simulator_server.Engine.Node.{EngineNode}
use pokemon_simulator_server.Engine.Instance.{
  EngineInstance, NodeResult, node, no_replicas, pod_not_found, get_node_for_room,
}
use pokemon_simulator_server.Room.GameRoom.{
  GameRoom, is_waiting, waiting, playing, InitJson, room_sessions, build_battle_init,
}
use pokemon_simulator_server.Room.Env.{Env, json, unsupported}
use pokemon_simulator_server.Room.Manager.{Server}
use pokemon_simulator_server.Room.Manager.Exit.{lookup-insert_twice}
use pokemon_simulator_server.Room.Game.{
  StartTask, Started, put_room, handle_start_error, start_on_node, start_with_init, start_game,
}
use pokemon_simulator_server.Room.Game.Start.{handle_start_error-rooms}
use pokemon_simulator_server.Room.Invariant.Sends.{Marshalled-cases}

module _ (env : Env) (e : EngineInstance) (room_id : String) (r : GameRoom) (v : Server) where
  -- The rooms of w are those of v, but for this one.
  abbrev OnlyRoom : GameRoom → Server → Type 0
  OnlyRoom r' w =
      (k : String) → lookup k w.rooms ≡ (if str_eq room_id k then some r' else lookup k v.rooms)

  -- A goroutine is launched for the node that the engine gives the room, with the text of the battle.
  pub record IsLaunched (s : Started) : Type 0 where
    pub task : StartTask
    pub target : EngineNode
    pub init : InitJson
    pub launched : s.1 ≡ some task
    pub for_room : task.room_id ≡ room_id
    pub given : get_node_for_room env.crc32 e r.id ≡ node target
    pub for_node : task.target_node_id ≡ target.pod_index
    pub built : build_battle_init env.crc32 r.id (room_sessions r v.heap) ≡ some init
    pub text : env.marshal_init init ≡ json task.init_json
    pub rooms : OnlyRoom (record r { status = playing; node_id = target.pod_index }) s.0

  -- Why no goroutine is launched.
  pub data Obstacle : Type 0 where
    too_few : ltb (length (room_sessions r v.heap)) 2 ≡ true → Obstacle
    unbuilt : build_battle_init env.crc32 r.id (room_sessions r v.heap) ≡ none → Obstacle
    unwritten :
        (init : InitJson) (err : String) → env.marshal_init init ≡ unsupported err → Obstacle
    empty_engine : get_node_for_room env.crc32 e r.id ≡ no_replicas → Obstacle
    lost_pod : (i : ℤ) → get_node_for_room env.crc32 e r.id ≡ pod_not_found i → Obstacle

  pub record IsRefused (s : Started) : Type 0 where
    pub obstacle : Obstacle
    pub not_launched : s.1 ≡ none
    pub rooms : OnlyRoom (record r { status = waiting }) s.0

  abbrev pub Decided : Started → Type 0
  Decided s = IsLaunched s ⊎ IsRefused s

  abbrev started : GameRoom
  started = record r { status = playing }

  refused :
      (reason : String)
      → Obstacle
      → Decided (handle_start_error env room_id started reason (put_room v room_id started), none)
  refused reason o = inr (record {
    obstacle = o;
    not_launched = refl;
    rooms = λ k.
        ap (λ m. lookup k m)
          (handle_start_error-rooms env room_id started reason (put_room v room_id started))
        ∙ lookup-insert_twice room_id k _ _ v.rooms;
  })

  start_on_node-Decided :
      (init : InitJson) (text : String) (n : NodeResult)
      → build_battle_init env.crc32 r.id (room_sessions r v.heap) ≡ some init
      → env.marshal_init init ≡ json text
      → get_node_for_room env.crc32 e r.id ≡ n
      → Decided (start_on_node env room_id started text n (put_room v room_id started))
  unfolding start_on_node
  start_on_node-Decided init text (node n) b t g = inl (record {
    task = record { room_id = room_id; target_node_id = n.pod_index; init_json = text };
    target = n;
    init = init;
    launched = refl;
    for_room = refl;
    given = g;
    for_node = refl;
    built = b;
    text = t;
    rooms = λ k. lookup-insert_twice room_id k _ _ v.rooms;
  })
  start_on_node-Decided init text no_replicas b t g = refused _ (empty_engine g)
  start_on_node-Decided init text (pod_not_found i) b t g = refused _ (lost_pod i g)

  start_with_init-Decided :
      (init : Option InitJson)
      → build_battle_init env.crc32 r.id (room_sessions r v.heap) ≡ init
      → Decided (start_with_init env e room_id started init (put_room v room_id started))
  unfolding start_with_init
  start_with_init-Decided none b = refused _ (unbuilt b)
  start_with_init-Decided (some init) b = elim (Marshalled-cases (env.marshal_init init)) [
    | inl (t, q) ↦ rw (q, start_with_init) (start_on_node-Decided init t _ b q refl)
    | inr (err, q) ↦ rw (q, start_with_init) (refused _ (unwritten init err q))
  ]

  -- Starting a room that waits has one of two ends. Either a goroutine is launched, with the text of the
  -- battle of the room's sessions, for the node that GetNodeForRoom gives the room, and the room is
  -- playing on that node; or something stood in the way (fewer than two sessions, a battle that cannot
  -- be built or written, no node), no goroutine is launched, and the room waits as before. Nothing else
  -- of the room changes, and every other room is as it was.
  pub start_game_lem :
      is_waiting r.status ≡ true
      → let s = start_game env e room_id r v in IsLaunched s ⊎ IsRefused s
  unfolding start_game
  start_game_lem waits = elim (Bool-cases (ltb (length (room_sessions r v.heap)) 2)) [
    | inl few ↦ rw (waits, few) (refused _ (too_few few))
    | inr enough ↦ rw (waits, enough) (start_with_init-Decided _ refl)
  ]
