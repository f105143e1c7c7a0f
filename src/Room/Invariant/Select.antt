-- ===== src/Room/Invariant/Select.antt =====
-- internal/room/game.go: selecting a team keeps the rooms well formed.
use pokemon_simulator_server.Base.{
  ℕ, ◌≡◌, refl, sym, ◌∙◌, String, true, List, [], string_eq, lookup, insert, length, is_some,
  All-lookup, keys-insert_known, is_some-lookup-keys, ltb, Option-cases, not, Bool-cases, inl, inr,
  subst, str_eq,
}
use pokemon_simulator_server.Engine.Instance.{EngineInstance}
use pokemon_simulator_server.Protocol.{JsonObject, Pokemon, SelectPokemonRequest, Player}
use pokemon_simulator_server.Room.Heap.{Heap}
use pokemon_simulator_server.Room.GameRoom.{GameRoom, is_waiting}
use pokemon_simulator_server.Room.Env.{Env, Parsed, parsed, null, invalid}
use pokemon_simulator_server.Room.Manager.{Server, player_id}
use pokemon_simulator_server.Room.Game.{put_room}
use pokemon_simulator_server.Room.Game.Select.{
  convert, all_players_ready, mark_ready, store_team, select_team, select_parsed,
  handle_select_pokemon, select_in, handle_select_pokemon_and_persist,
}
use pokemon_simulator_server.Room.Invariant.{
  IsRoom, IsServer, SamePlayers, SamePlayers-update, IsRoom-heap, AreRooms-heap, AreRooms-insert,
}
use pokemon_simulator_server.Room.Invariant.Sends.{
  OnlySends-trans, OnlySends-IsServer, send_to-OnlySends, broadcast_to_room-OnlySends,
  send_summary-OnlySends,
}
use pokemon_simulator_server.Room.Invariant.Play.{start_game-IsServer}

-- Marking a player of the room as ready.
ready-IsRoom :
    (h : Heap) (k : String) (r : GameRoom) (player : String)
    → is_some (lookup player r.sessions) ≡ true
    → IsRoom h (k, r)
    → IsRoom h (k, record r { ready_players = insert player true r.ready_players })
ready-IsRoom h k r player known w = record {
  named = w.named;
  flagged =
      w.flagged
      ∙ sym (
          keys-insert_known player true r.ready_players
            (sym (is_some-lookup-keys player r.sessions r.ready_players w.flagged) ∙ known));
  occupied = w.occupied;
  capped = w.capped;
  players = w.players;
}

module _ (env : Env) where
  mark_ready-IsServer :
      (e : EngineInstance) (room_id : String) (r : GameRoom) (p : ℕ) (v : Server)
      → is_some (lookup (player_id v p) r.sessions) ≡ true
      → IsRoom v.heap (room_id, r)
      → IsServer v
      → IsServer (mark_ready env e room_id r p v).0
  unfolding mark_ready
  mark_ready-IsServer e room_id r p v known w ws =
      let r' = record r { ready_players = insert (player_id v p) true r.ready_players } in
      let w' = ready-IsRoom v.heap room_id r (player_id v p) known w in
      let ws' : IsServer (put_room v room_id r') =
        AreRooms-insert v.heap v.rooms room_id r' w' ws in
      let sent =
        OnlySends-trans (send_to-OnlySends env p _ (put_room v room_id r'))
          (broadcast_to_room-OnlySends env r' _ _) in
      elim (Bool-cases (all_players_ready r')) [
        | inr q ↦ rw q (OnlySends-IsServer sent ws')
        | inl q ↦
            let sent' = OnlySends-trans sent (send_summary-OnlySends env r' _) in
            rw q (
              start_game-IsServer env e room_id r' _ (IsRoom-heap sent'.same_players _ w')
                (OnlySends-IsServer sent' ws'))
      ]

  team-SamePlayers :
      (p : ℕ) (team : List JsonObject) (v : Server)
      → SamePlayers v.heap (store_team env p team v).heap
  team-SamePlayers p team v = SamePlayers-update v.heap p _ refl

  select_team-IsServer :
      (e : EngineInstance) (room_id : String) (r : GameRoom) (p : ℕ) (team : List Pokemon)
      (v : Server)
      → is_some (lookup (player_id v p) r.sessions) ≡ true
      → IsRoom v.heap (room_id, r)
      → IsServer v
      → IsServer (select_team env e room_id r p team v).0
  unfolding select_team
  select_team-IsServer e room_id r p team v known w ws =
      let t : Server = store_team env p (convert team).0 v in
      let same = team-SamePlayers p (convert team).0 v in
      let ts : IsServer t = AreRooms-heap v.rooms same ws in
      elim (Bool-cases (ltb 6 (length team))) [
        | inl q ↦ rw q (OnlySends-IsServer (send_to-OnlySends env p _ v) ws)
        | inr q ↦ elim (Bool-cases (convert team).1) [
          | inr c ↦ rw (q, c) (OnlySends-IsServer (send_to-OnlySends env p _ t) ts)
          | inl c ↦
              let known' : is_some (lookup (player_id t p) r.sessions) ≡ true =
                subst (λ (k : Player). is_some (lookup k.id r.sessions) ≡ true) (sym (same.at p))
                  known in
              rw (q, c) (mark_ready-IsServer e room_id r p t known' (IsRoom-heap same _ w) ts)
        ]
      ]

  select_parsed-IsServer :
      (e : EngineInstance) (room_id : String) (r : GameRoom) (p : ℕ)
      (req : Parsed SelectPokemonRequest) (v : Server)
      → is_some (lookup (player_id v p) r.sessions) ≡ true
      → IsRoom v.heap (room_id, r)
      → IsServer v
      → IsServer (select_parsed env e room_id r p req v).0
  unfolding select_parsed
  select_parsed-IsServer e room_id r p (invalid err) v known w ws =
      OnlySends-IsServer (send_to-OnlySends env p _ v) ws
  select_parsed-IsServer e room_id r p null v known w ws =
      select_team-IsServer e room_id r p [] v known w ws
  select_parsed-IsServer e room_id r p (parsed req) v known w ws =
      select_team-IsServer e room_id r p req.pokemon v known w ws

  handle_select_pokemon-IsServer :
      (e : EngineInstance) (room_id : String) (r : GameRoom) (p : ℕ) (raw : String) (v : Server)
      → IsRoom v.heap (room_id, r)
      → IsServer v
      → IsServer (handle_select_pokemon env e room_id r p raw v).0
  unfolding handle_select_pokemon
  handle_select_pokemon-IsServer e room_id r p raw v w ws =
      elim (Bool-cases (is_some (lookup (player_id v p) r.sessions))) [
        | inr a ↦ rw a (OnlySends-IsServer (send_to-OnlySends env p _ v) ws)
        | inl a ↦ elim (Bool-cases (not (is_waiting r.status))) [
          | inl b ↦ rw (a, b) (OnlySends-IsServer (send_to-OnlySends env p _ v) ws)
          | inr b ↦ elim (Bool-cases (str_eq raw "")) [
            | inl c ↦ rw (a, b, c) (OnlySends-IsServer (send_to-OnlySends env p _ v) ws)
            | inr c ↦
                rw (a, b, c)
                  (select_parsed-IsServer e room_id r p (env.unmarshal_select raw) v a w ws)
          ]
        ]
      ]

  select_in-IsServer :
      (e : EngineInstance) (room_id : String) (p : ℕ) (raw : String) (v : Server)
      → IsServer v
      → IsServer (select_in env e room_id p raw v).0
  unfolding select_in
  select_in-IsServer e room_id p raw v ws = elim (Option-cases (lookup room_id v.rooms)) [
    | inl q ↦ rw (q, select_in) (OnlySends-IsServer (send_to-OnlySends env p _ v) ws)
    | inr (r, q) ↦
        rw (q, select_in)
          (handle_select_pokemon-IsServer e room_id r p raw v
            (All-lookup (IsRoom v.heap) room_id v.rooms ws q) ws)
  ]

  -- Selecting a team, also when it starts the game, keeps every room well formed.
  pub handle_select_pokemon_and_persist-IsServer :
      (e : EngineInstance) (p : ℕ) (raw : String) (v : Server)
      → IsServer v
      → IsServer (handle_select_pokemon_and_persist env e p raw v).0
  unfolding handle_select_pokemon_and_persist
  handle_select_pokemon_and_persist-IsServer e p raw v ws =
      elim (Bool-cases (str_eq (v.heap.cell p).room_id "")) [
        | inl q ↦ rw q (OnlySends-IsServer (send_to-OnlySends env p _ v) ws)
        | inr q ↦ rw q (select_in-IsServer e _ p raw v ws)
      ]
