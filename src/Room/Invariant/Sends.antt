-- ===== src/Room/Invariant/Sends.antt =====
-- internal/room: the operations that only send messages and leave rooms and players as they are.
use pokemon_simulator_server.Base.{
  ℕ, zero, suc, ◌≡◌, ◌⊎◌, refl, sym, ◌∙◌, ap, List, [], ◌++◌, String, pos, negsuc, string_eq,
  lookup, is_some, some, Option-cases, none_ne_some, eq_of_some, not, Bool-cases, inl, inr, subst,
  str_eq,
}
use pokemon_simulator_server.Engine.Instance.{EngineInstance, get_node_by_pod_index}
use mathlib.Core.List.{append_assoc, append-nil}
use pokemon_simulator_server.Room.Heap.Sent.{
  Sent, Sent-refl, Sent-trans, reply-Sent, broadcast-Sent,
}
use pokemon_simulator_server.Protocol.{GameResponse, JsonObject}
use pokemon_simulator_server.Room.GameRoom.{GameRoom, is_playing, build_battle_init, room_sessions}
use pokemon_simulator_server.Room.Env.{
  Env, EngineCall, Marshalled, json, unsupported, RpcOutcome, rpc_error, rpc_response,
}
use pokemon_simulator_server.Room.Manager.{Server, player_id, RoomManager}
use pokemon_simulator_server.Room.Game.{broadcast_to_room, send_to}
use pokemon_simulator_server.Room.Game.Select.{send_summary}
use pokemon_simulator_server.Room.Game.Action.{
  Injected, action_text, inject_error, inject_panic, is_waiting_turn, push_turn, answer_outcome,
  call_engine, forward_injected, forward_battle_action, battle_action_in, handle_battle_action,
}
use pokemon_simulator_server.Room.Invariant.{
  IsServer, SamePlayers, SamePlayers-trans, SamePlayers-reply, SamePlayers-broadcast, AreRooms,
  AreRooms-heap,
}

-- Between two servers nothing but messages and engine calls has happened: rooms and tables are the same,
-- in each session only the messages of its channel differ, and no call is forgotten.
pub record OnlySends (v w : Server) : Type 0 where
  pub same_manager : w.manager ≡ v.manager
  pub same_players : SamePlayers v.heap w.heap
  pub only_sent : (q : ℕ) → Sent (v.heap.cell q) (w.heap.cell q)
  pub calls_made : List EngineCall
  pub called : w.calls ≡ v.calls ++ calls_made

pub OnlySends-refl : (v : Server) → OnlySends v v
OnlySends-refl v = record {
  same_manager = refl;
  same_players = record { at = λ q. refl; same_next = refl };
  only_sent = λ q. Sent-refl (v.heap.cell q);
  calls_made = [];
  called = sym (append-nil v.calls);
}

pub OnlySends-trans : {u v w : Server} → OnlySends u v → OnlySends v w → OnlySends u w
OnlySends-trans {u} a b = record {
  same_manager = b.same_manager ∙ a.same_manager;
  same_players = SamePlayers-trans a.same_players b.same_players;
  only_sent = λ q. Sent-trans (a.only_sent q) (b.only_sent q);
  calls_made = a.calls_made ++ b.calls_made;
  called =
      b.called
      ∙ ap (λ l. l ++ b.calls_made) a.called
      ∙ append_assoc u.calls a.calls_made b.calls_made;
}

pub OnlySends-IsServer : {v w : Server} → OnlySends v w → IsServer v → IsServer w
OnlySends-IsServer {v} {w} o ws =
    subst (λ (m : RoomManager). AreRooms w.heap m.rooms) (sym o.same_manager)
      (AreRooms-heap v.rooms o.same_players ws)

pub Marshalled-cases :
    (m : Marshalled) → ((t : String) × (m ≡ json t)) ⊎ ((e : String) × (m ≡ unsupported e))
Marshalled-cases (json t) = inl (t, refl)
Marshalled-cases (unsupported e) = inr (e, refl)

module _ (env : Env) where
  pub send_to-OnlySends : (p : ℕ) (m : GameResponse) (v : Server) → OnlySends v (send_to env p m v)
  unfolding send_to
  send_to-OnlySends p m v = record {
    same_manager = refl;
    same_players = SamePlayers-reply env.marshals p m v.heap;
    only_sent = reply-Sent env.marshals p m v.heap;
    calls_made = [];
    called = sym (append-nil v.calls);
  }

  pub broadcast_to_room-OnlySends :
      (r : GameRoom) (m : GameResponse) (v : Server) → OnlySends v (broadcast_to_room env r m v)
  unfolding broadcast_to_room
  broadcast_to_room-OnlySends r m v = record {
    same_manager = refl;
    same_players = SamePlayers-broadcast env.marshals _ m v.heap;
    only_sent = broadcast-Sent env.marshals _ m v.heap;
    calls_made = [];
    called = sym (append-nil v.calls);
  }

  pub send_summary-OnlySends : (r : GameRoom) (v : Server) → OnlySends v (send_summary env r v)
  unfolding send_summary
  send_summary-OnlySends r v =
      elim (Option-cases (build_battle_init env.crc32 r.id (room_sessions r v.heap))) [
        | inl q ↦ rw (q, send_summary) (OnlySends-refl v)
        | inr (init, q) ↦ elim (Marshalled-cases (env.marshal_init init)) [
          | inl (t, m) ↦ rw (q, m, send_summary) (broadcast_to_room-OnlySends r _ v)
          | inr (err, m) ↦ rw (q, m, send_summary) (OnlySends-refl v)
        ]
      ]

  push_turn-OnlySends :
      (r : GameRoom) (p : ℕ) (m : JsonObject) (v : Server) → OnlySends v (push_turn env r p m v)
  unfolding push_turn
  push_turn-OnlySends r p m v = elim (Bool-cases (is_waiting_turn m)) [
    | inl q ↦ rw q (OnlySends-trans (send_to-OnlySends p _ v) (broadcast_to_room-OnlySends r _ _))
    | inr q ↦ rw q (OnlySends-trans (send_to-OnlySends p _ v) (broadcast_to_room-OnlySends r _ _))
  ]

  answer_outcome-OnlySends :
      (r : GameRoom) (p : ℕ) (o : RpcOutcome) (v : Server)
      → OnlySends v (answer_outcome env r p o v)
  unfolding answer_outcome
  answer_outcome-OnlySends r p (rpc_error err) v = send_to-OnlySends p _ v
  answer_outcome-OnlySends r p (rpc_response (pos zero) message) v = push_turn-OnlySends r p _ v
  answer_outcome-OnlySends r p (rpc_response (pos (suc n)) message) v = send_to-OnlySends p _ v
  answer_outcome-OnlySends r p (rpc_response (negsuc n) message) v = send_to-OnlySends p _ v

  call_engine-OnlySends :
      (e : EngineInstance) (r : GameRoom) (p : ℕ) (action : String) (v : Server)
      → OnlySends v (call_engine env e r p action v)
  unfolding call_engine
  call_engine-OnlySends e r p action v = elim (Option-cases (get_node_by_pod_index e r.node_id)) [
    | inl q ↦ rw (q, call_engine) (send_to-OnlySends p _ v)
    | inr (n, q) ↦
        let asked : Server = record v { calls = _ } in
        rw (q, call_engine)
          (OnlySends-trans {v = asked}
            (record {
              same_manager = refl;
              same_players = record { at = λ k. refl; same_next = refl };
              only_sent = λ k. Sent-refl (v.heap.cell k);
              calls_made = _;
              called = refl;
            })
            (answer_outcome-OnlySends r p _ asked))
  ]

  forward_injected-OnlySends :
      (e : EngineInstance) (r : GameRoom) (p : ℕ) (i : Injected) (v : Server) {w : Server}
      → forward_injected env e r p i v ≡ some w
      → OnlySends v w
  unfolding forward_injected
  forward_injected-OnlySends e r p (action_text action) v q =
      subst (OnlySends v) (eq_of_some q) (call_engine-OnlySends e r p action v)
  forward_injected-OnlySends e r p (inject_error err) v q =
      subst (OnlySends v) (eq_of_some q) (send_to-OnlySends p _ v)
  forward_injected-OnlySends e r p inject_panic v q = absurd (none_ne_some q)

  refused :
      (p : ℕ) (m : GameResponse) (v : Server) {w : Server}
      → some (send_to env p m v) ≡ some w
      → OnlySends v w
  refused p m v q = subst (OnlySends v) (eq_of_some q) (send_to-OnlySends p m v)

  forward_battle_action-OnlySends :
      (e : EngineInstance) (r : GameRoom) (p : ℕ) (raw : String) (v : Server) {w : Server}
      → forward_battle_action env e r p raw v ≡ some w
      → OnlySends v w
  unfolding forward_battle_action
  forward_battle_action-OnlySends e r p raw v q =
      elim (Bool-cases (not (is_some (lookup (player_id v p) r.sessions)))) [
        | inl a ↦ refused p _ v (rw a at q)
        | inr a ↦ elim (Bool-cases (not (is_playing r.status))) [
          | inl b ↦ refused p _ v (rw (a, b) at q)
          | inr b ↦ elim (Bool-cases (str_eq raw "")) [
            | inl c ↦ refused p _ v (rw (a, b, c) at q)
            | inr c ↦ elim (Bool-cases (not (env.valid_json raw))) [
              | inl d ↦ refused p _ v (rw (a, b, c, d) at q)
              | inr d ↦ forward_injected-OnlySends e r p _ v (rw (a, b, c, d) at q)
            ]
          ]
        ]
      ]

  battle_action_in-OnlySends :
      (e : EngineInstance) (room_id : String) (p : ℕ) (raw : String) (v : Server) {w : Server}
      → battle_action_in env e room_id p raw v ≡ some w
      → OnlySends v w
  unfolding battle_action_in
  battle_action_in-OnlySends e room_id p raw v h = elim (Option-cases (lookup room_id v.rooms)) [
    | inl q ↦ refused p _ v (rw (q, battle_action_in) at h)
    | inr (r, q) ↦ forward_battle_action-OnlySends e r p raw v (rw (q, battle_action_in) at h)
  ]

  -- A battle action that does not panic only sends messages and calls the engine: it changes no room and
  -- no table of sessions; each session keeps its player, room, connection and team, and what was put on
  -- its channel; no session is allocated; and calls are only added to those made so far.
  pub handle_battle_action-OnlySends :
      (e : EngineInstance) (p : ℕ) (raw : String) (v : Server) {w : Server}
      → handle_battle_action env e p raw v ≡ some w
      → OnlySends v w
  unfolding handle_battle_action
  handle_battle_action-OnlySends e p raw v h =
      elim (Bool-cases (str_eq (v.heap.cell p).room_id "")) [
        | inl q ↦ refused p _ v (rw q at h)
        | inr q ↦ battle_action_in-OnlySends e _ p raw v (rw q at h)
      ]
