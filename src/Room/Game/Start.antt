-- ===== src/Room/Game/Start.antt =====
-- internal/room/game.go: what the goroutine that StartGame launches does to the room, and the calls that it
-- makes.
use pokemon_simulator_server.Base.{
  ℕ, zero, suc, ◌+◌, ◌≤◌, ◌≡◌, ◌≢◌, ◌⊎◌, refl, sym, ◌∙◌, ap, String, true, false, List, [], ◌∷◌,
  ◌++◌, arith, string_eq, lookup, insert, length, Option, some, Bool-cases, inl, inr,
}
use mathlib.Core.List.{append_assoc, append-nil}
use pokemon_simulator_server.Engine.Node.{EngineNode}
use pokemon_simulator_server.Engine.Instance.{EngineInstance, node}
use pokemon_simulator_server.Room.GameRoom.{GameRoom, waiting}
use pokemon_simulator_server.Room.Env.{Env, EngineCall, create_room_call, rpc_error}
use pokemon_simulator_server.Room.Manager.{Server}
use pokemon_simulator_server.Room.Manager.Closing.{is_ok}
use pokemon_simulator_server.Room.Manager.Exit.{Succeeds}
use pokemon_simulator_server.Room.Game.{
  StartTask, Attempts, broadcast_to_room, handle_start_error, create_attempts, finish_start,
  target_node, run_on_node, run_start_task,
}

abbrev no_attempt : Attempts
no_attempt = record { outcome = rpc_error ""; calls = [] }

module _ (env : Env) (client : Option ℕ) (room_id init : String) where
  create_attempts-ok :
      (left attempt : ℕ) (a : Attempts)
      → is_ok a.outcome ≡ false
      → is_ok (create_attempts env left attempt client room_id init a).outcome ≡ true
      → Succeeds (env.call_create_room client room_id init) attempt (attempt + left)
  unfolding create_attempts
  create_attempts-ok zero attempt a f h = absurd (cc (f, h))
  create_attempts-ok (suc left) attempt a f h =
      elim (Bool-cases (is_ok (env.call_create_room client room_id init attempt))) [
        | inl q ↦ record {
          attempt = attempt;
          from_first = omega arith;
          below_end = omega arith;
          ok = q;
        }
        | inr q ↦
            let s = create_attempts-ok left (attempt + 1) _ q (rw q at h) in
            let b = s.from_first in
            let c = s.below_end in
            record {
              attempt = s.attempt;
              from_first = omega (arith, b);
              below_end = omega (arith, c);
              ok = s.ok;
            }
      ]

  ok-create_attempts :
      (left attempt : ℕ) (a : Attempts)
      → Succeeds (env.call_create_room client room_id init) attempt (attempt + left)
      → is_ok (create_attempts env left attempt client room_id init a).outcome ≡ true
  unfolding create_attempts
  ok-create_attempts zero attempt a s =
      let b = s.from_first in let c = s.below_end in absurd (omega (arith, b, c))
  ok-create_attempts (suc left) attempt a s =
      elim (Bool-cases (is_ok (env.call_create_room client room_id init attempt))) [
        | inl q ↦ rw q q
        | inr q ↦
            let not_first : s.attempt ≢ attempt = λ e. cc (e, s.ok, q) in
            let b = s.from_first in
            let c = s.below_end in
            rw q (
              ok-create_attempts left (attempt + 1) _ (record {
                attempt = s.attempt;
                from_first = omega (arith, b, not_first);
                below_end = omega (arith, c);
                ok = s.ok;
              }))
      ]

  create_attempts-calls :
      (left attempt : ℕ) (a : Attempts)
      → (more : List EngineCall) × ((create_attempts env left attempt client room_id init a).calls
          ≡ a.calls ++ more)
        × (length more ≤ left)
  unfolding create_attempts
  create_attempts-calls zero attempt a = ([], sym (append-nil a.calls), omega arith)
  create_attempts-calls (suc left) attempt a =
      let call : EngineCall = create_room_call client room_id init in
      elim (Bool-cases (is_ok (env.call_create_room client room_id init attempt))) [
        | inl q ↦ (call ∷ [], rw q refl, omega arith)
        | inr q ↦
            let next : Attempts = record {
              outcome = env.call_create_room client room_id init attempt;
              calls = a.calls ++ (call ∷ []);
            } in
            let (more, e, short) = create_attempts-calls left (attempt + 1) next in
            (call ∷ more, rw q (e ∙ append_assoc a.calls (call ∷ []) more), omega (arith, short))
      ]

module _ (env : Env) where
  pub handle_start_error-rooms :
      (room_id : String) (r : GameRoom) (reason : String) (v : Server)
      → (handle_start_error env room_id r reason v).rooms
        ≡ insert room_id (record r { status = waiting }) v.rooms
  unfolding handle_start_error broadcast_to_room
  handle_start_error-rooms room_id r reason v = refl

  -- The goroutine of StartGame, on a node for a room that is still there, has one of two effects.
  -- Either the engine answers one of its three attempts with success, and the rooms stay as they are,
  -- or none of the three succeeds, and the room is put back to waiting, whatever its status has become.
  pub run_start_task_lem :
      (e : EngineInstance) (t : StartTask) (v : Server) (r : GameRoom) (n : EngineNode)
      → lookup t.room_id v.rooms ≡ some r
      → target_node env e t ≡ node n
      → let call = env.call_create_room n.client t.room_id t.init_json in
        (Succeeds call 1 4 × ((run_start_task env e t v).rooms ≡ v.rooms))
        ⊎ ((Succeeds call 1 4 → ⊥)
            × ((run_start_task env e t v).rooms
                ≡ insert t.room_id (record r { status = waiting }) v.rooms))
  unfolding run_start_task run_on_node finish_start broadcast_to_room
  run_start_task_lem e t v r n found target =
      let a = create_attempts env 3 1 n.client t.room_id t.init_json no_attempt in
      rw (found, target, run_start_task)
        (elim (Bool-cases (is_ok a.outcome)) [
          | inl q ↦ inl (
            create_attempts-ok env n.client t.room_id t.init_json 3 1 no_attempt refl q,
            rw q refl,
          )
          | inr q ↦
              let never : Succeeds (env.call_create_room n.client t.room_id t.init_json) 1 4 → ⊥ =
                λ s.
                  cc (q, ok-create_attempts env n.client t.room_id t.init_json 3 1 no_attempt s) in
              inr (never, rw q (handle_start_error-rooms t.room_id r _ _))
        ])

  -- The goroutine of StartGame, on a node for a room that is still there, makes at most three calls to
  -- the engine.
  pub run_start_task-calls :
      (e : EngineInstance) (t : StartTask) (v : Server) (r : GameRoom) (n : EngineNode)
      → lookup t.room_id v.rooms ≡ some r
      → target_node env e t ≡ node n
      → (more : List EngineCall) × ((run_start_task env e t v).calls ≡ v.calls ++ more)
        × (length more ≤ 3)
  unfolding run_start_task run_on_node finish_start broadcast_to_room handle_start_error
  run_start_task-calls e t v r n found target =
      let a = create_attempts env 3 1 n.client t.room_id t.init_json no_attempt in
      let (more, q, short) =
        create_attempts-calls env n.client t.room_id t.init_json 3 1 no_attempt in
      (
        more,
        rw (found, target, run_start_task)
            (elim (Bool-cases (is_ok a.outcome)) [
              | inl ok ↦ rw ok (ap (λ c. v.calls ++ c) q)
              | inr failed ↦ rw failed (ap (λ c. v.calls ++ c) q)
            ]),
        short,
      )
