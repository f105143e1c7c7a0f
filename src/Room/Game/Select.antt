-- ===== src/Room/Game/Select.antt =====
-- internal/room/game.go: HandleSelectPokemon and HandleSelectPokemonAndPersist.
pub mod Teams
use pokemon_simulator_server.Base.{
  ℕ, zero, suc, ◌+◌, String, str_append, Bool, true, false, ◌&&◌, Option, none, some, List, [], ◌∷◌,
  ◌++◌, ℤ, str_eq, string_eq, Map, values, lookup, insert, length, ltb, nat_eq, not, is_some,
  count_by, if◌then◌else◌,
}
use pokemon_simulator_server.Engine.Instance.{EngineInstance}
use pokemon_simulator_server.Protocol.{
  Payload, Value, JsonObject, Pokemon, PokemonStats, Ability, float64, not_a_number,
  SelectPokemonRequest, GameResponse, response, code_success, code_data_invalid,
  code_room_not_exist, code_room_started, code_player_not_in_room,
}
use pokemon_simulator_server.Room.Session.{Session}
use pokemon_simulator_server.Room.Heap.{update}
use pokemon_simulator_server.Room.GameRoom.{
  GameRoom, is_waiting, InitJson, build_battle_init, room_sessions,
}
use pokemon_simulator_server.Room.Env.{
  Env, Parsed, parsed, null, invalid, Marshalled, json, unsupported,
}
use pokemon_simulator_server.Room.Manager.{Server, player_id}
use pokemon_simulator_server.Room.Game.{
  Started, StartTask, put_room, broadcast_to_room, send_to, start_game,
}

unfoldable pub stats_map : PokemonStats → Value
stats_map s = Value.int_map (
    ("hp", s.hp)
    ∷ ("attack", s.attack)
    ∷ ("defense", s.defense)
    ∷ ("specialAttack", s.special_attack)
    ∷ ("specialDefense", s.special_defense)
    ∷ ("speed", s.speed)
    ∷ [])

unfoldable pub poke_map : Pokemon → ℤ → JsonObject
poke_map k ability =
    ("speciesID", Value.int k.species_id)
    ∷ ("level", Value.int k.level)
    ∷ ("nature", Value.int k.nature)
    ∷ ("ability", Value.int ability)
    ∷ ("item", Value.int k.item)
    ∷ ("ivs", stats_map k.ivs)
    ∷ ("evs", stats_map k.evs)
    ∷ ("moves", Value.int_list k.moves)
    ∷ []

-- The loop over req.Pokemon, which stops at the first ability that is no number: what it has
-- stored by then, and whether it came to the end.
unfoldable pub convert : List Pokemon → List JsonObject × Bool
convert [] = ([], true)
convert (k ∷ ks) =
    let rest = convert ks in
    elim k.ability [
      | not_a_number ↦ ([], false)
      | float64 ability ↦ (poke_map k ability ∷ rest.0, rest.1)
    ]

-- The loop over r.ReadyPlayers.
unfoldable pub ready_count : Map String Bool → ℕ
ready_count m = count_by (λ b. b) (values m)

-- len(r.Sessions) == 2 && readyCount == 2
abbrev pub all_players_ready : GameRoom → Bool
all_players_ready r = nat_eq (length r.sessions) 2 && nat_eq (ready_count r.ready_players) 2

module _ (env : Env) where
  abbrev refuse : ℤ → String → ℕ → Server → Server
  refuse code msg p v = send_to env p (response "select_pokemon_res" code msg Payload.nil) v

  -- The summary of both teams: an error is only logged.
  unfoldable pub send_summary : GameRoom → Server → Server
  send_summary r v = elim (build_battle_init env.crc32 r.id (room_sessions r v.heap)) [
    | none ↦ v
    | some init ↦ elim (env.marshal_init init) [
      | unsupported err ↦ v
      | json text ↦
          broadcast_to_room env r
            (response "pokemon_selection_summary" code_success "双方宝可梦选择已汇总" (Payload.raw_json text))
            v
    ]
  ]

  -- From the update of ReadyPlayers on.
  unfoldable pub mark_ready : EngineInstance → String → GameRoom → ℕ → Server → Started
  mark_ready e room_id r p v =
      let r' = record r { ready_players = insert (player_id v p) true r.ready_players } in
      let v' =
        broadcast_to_room env r'
          (response "player_ready" code_success
            (str_append "玩家 " (str_append (player_id v p) " 已准备好")) Payload.nil)
          (send_to env p (response "select_pokemon_res" code_success "宝可梦选择成功" Payload.nil)
            (put_room v room_id r')) in
      if all_players_ready r' then start_game env e room_id r' (send_summary r' v') else (v', none)

  -- s.SelectedPokemon as the loop leaves it
  abbrev pub store_team : ℕ → List JsonObject → Server → Server
  store_team p team v = record v {
    heap = update v.heap p (record (v.heap.cell p) { selected_pokemon = team });
  }

  unfoldable pub select_team :
      EngineInstance → String → GameRoom → ℕ → List Pokemon → Server → Started
  select_team e room_id r p team v =
      if ltb 6 (length team)
      then (refuse code_data_invalid "最多只能选择 6 个宝可梦" p v, none)
      else if (convert team).1
      then mark_ready e room_id r p (store_team p (convert team).0 v)
      else (refuse code_data_invalid "ability 必须是数字" p (store_team p (convert team).0 v), none)

  unfoldable pub select_parsed :
      EngineInstance → String → GameRoom → ℕ → Parsed SelectPokemonRequest → Server → Started
  select_parsed e room_id r p (invalid err) v =
      (refuse code_data_invalid (str_append "JSON 解析失败: " err) p v, none)
  select_parsed e room_id r p null v = select_team e room_id r p [] v
  select_parsed e room_id r p (parsed req) v = select_team e room_id r p req.pokemon v

  -- HandleSelectPokemon
  unfoldable pub handle_select_pokemon :
      EngineInstance → String → GameRoom → ℕ → String → Server → Started
  handle_select_pokemon e room_id r p raw v =
      if not (is_some (lookup (player_id v p) r.sessions))
      then (refuse code_player_not_in_room "你不在该房间中" p v, none)
      else if not (is_waiting r.status)
      then (refuse code_room_started "房间已开始游戏，无法选择宝可梦" p v, none)
      else if str_eq raw ""
      then (refuse code_data_invalid "pokemon 数据不能为空" p v, none)
      else select_parsed e room_id r p (env.unmarshal_select raw) v

  unfoldable pub select_in : EngineInstance → String → ℕ → String → Server → Started
  select_in e room_id p raw v = elim (lookup room_id v.rooms) [
    | none ↦ (refuse code_room_not_exist "房间不存在" p v, none)
    | some r ↦ handle_select_pokemon e room_id r p raw v
  ]

  -- HandleSelectPokemonAndPersist
  unfoldable pub handle_select_pokemon_and_persist : EngineInstance → ℕ → String → Server → Started
  handle_select_pokemon_and_persist e p raw v =
      if str_eq (v.heap.cell p).room_id ""
      then (refuse code_room_not_exist "当前不在房间中" p v, none)
      else select_in e (v.heap.cell p).room_id p raw v
