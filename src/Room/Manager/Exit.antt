-- ===== src/Room/Manager/Exit.antt =====
-- internal/room/manager.go: what LeaveRoom and DeleteRoom do to the rooms, and the calls that
-- sendDestroyRoomRequestSync makes.
use pokemon_simulator_server.Base.{
  ℕ, zero, suc, ◌+◌, ◌≤◌, ◌<◌, ◌≡◌, ◌≢◌, ◌↔◌, refl, ◌∙◌, ap, String, Bool, true, false, ℤ, arith,
  string_eq, str_eq, str_eq_iff, Map, lookup, insert, erase, length, lookup-insert, lookup-erase,
  lookup-insert_self, erase-insert, All, Option, some, none, Option-cases, if◌then◌else◌, not,
  Bool-cases, inl, inr, nat_eq, subst,
}
use pokemon_simulator_server.Engine.Node.{EngineNode}
use pokemon_simulator_server.Engine.Instance.{EngineInstance, get_node_by_pod_index}
use pokemon_simulator_server.Room.Heap.{Heap, room_id-broadcast}
use pokemon_simulator_server.Room.GameRoom.{GameRoom, is_playing, is_waiting, finished}
use pokemon_simulator_server.Room.Env.{Env, destroy_room_call, RpcOutcome}
use pokemon_simulator_server.Room.Manager.{Server, player_id, set_rooms, set_room_id, departed}
use pokemon_simulator_server.Room.Manager.Closing.{
  is_ok, destroy_attempts, send_destroy_room_request_sync, delete_known, delete_room, leave_others,
  leave_known, leave_room,
}
use pokemon_simulator_server.Room.Manager.Enter.{set_room_id_self}

-- What is left of a room after a player has left it: nothing if he was the last one, and a room
-- whose game is over if one was being played.
abbrev pub remainder : GameRoom → String → Option GameRoom
remainder r player =
    if nat_eq (length (erase player r.sessions)) 0
    then none
    else some (record {
      id = r.id;
      sessions = erase player r.sessions;
      status = if is_playing r.status then finished else r.status;
      node_id = r.node_id;
      ready_players = erase player r.ready_players;
    })

if-same {ℓ} :
    {A : Type ℓ} (c : Bool) (x y z : A)
    → (if c then x else if c then y else z) ≡ (if c then x else z)
if-same true x y z = refl
if-same false x y z = refl

-- Only the last of two entries under a key counts.
pub lookup-insert_twice :
    (i k : String) (r s : GameRoom) (m : Map String GameRoom)
    → lookup k (insert i r (insert i s m)) ≡ (if str_eq i k then some r else lookup k m)
lookup-insert_twice i k r s m =
    lookup-insert i k r (insert i s m)
    ∙ ap (λ o. if str_eq i k then some r else o) (lookup-insert i k s m)
    ∙ if-same (str_eq i k) (some r) (some s) (lookup k m)

-- An attempt between two numbers that the engine answers with success.
pub record Succeeds (call : ℕ → RpcOutcome) (first end : ℕ) : Type 0 where
  pub attempt : ℕ
  pub from_first : first ≤ attempt
  pub below_end : attempt < end
  pub ok : is_ok (call attempt) ≡ true

module _ (env : Env) where
  destroy_attempts-true :
      (left attempt : ℕ) (client : Option ℕ) (room_id : String)
      → (destroy_attempts env left attempt client room_id).0 ≡ true
      → Succeeds (env.call_destroy_room client room_id) attempt (attempt + left)
  unfolding destroy_attempts
  destroy_attempts-true zero attempt client room_id h = absurd (cc h)
  destroy_attempts-true (suc left) attempt client room_id h =
      elim (Bool-cases (is_ok (env.call_destroy_room client room_id attempt))) [
        | inl q ↦ record {
          attempt = attempt;
          from_first = omega arith;
          below_end = omega arith;
          ok = q;
        }
        | inr q ↦
            let s = destroy_attempts-true left (attempt + 1) client room_id (rw q at h) in
            let a = s.from_first in
            let b = s.below_end in
            record {
              attempt = s.attempt;
              from_first = omega (arith, a);
              below_end = omega (arith, b);
              ok = s.ok;
            }
      ]

  true-destroy_attempts :
      (left attempt : ℕ) (client : Option ℕ) (room_id : String)
      → Succeeds (env.call_destroy_room client room_id) attempt (attempt + left)
      → (destroy_attempts env left attempt client room_id).0 ≡ true
  unfolding destroy_attempts
  true-destroy_attempts zero attempt client room_id s =
      let a = s.from_first in let b = s.below_end in absurd (omega (arith, a, b))
  true-destroy_attempts (suc left) attempt client room_id s =
      elim (Bool-cases (is_ok (env.call_destroy_room client room_id attempt))) [
        | inl q ↦ rw q refl
        | inr q ↦
            let not_first : s.attempt ≢ attempt = λ e. cc (e, s.ok, q) in
            let a = s.from_first in
            let b = s.below_end in
            rw q (
              true-destroy_attempts left (attempt + 1) client room_id (record {
                attempt = s.attempt;
                from_first = omega (arith, a, not_first);
                below_end = omega (arith, b);
                ok = s.ok;
              }))
      ]

  destroy_attempts-calls :
      (left attempt : ℕ) (client : Option ℕ) (room_id : String)
      → (length (destroy_attempts env left attempt client room_id).1 ≤ left)
        × All
            (λ c. c ≡ destroy_room_call client room_id)
            (destroy_attempts env left attempt client room_id).1
  unfolding destroy_attempts
  destroy_attempts-calls zero attempt client room_id = (omega arith, tt)
  destroy_attempts-calls (suc left) attempt client room_id =
      let (short, same) = destroy_attempts-calls left (attempt + 1) client room_id in
      elim (Bool-cases (is_ok (env.call_destroy_room client room_id attempt))) [
        | inl q ↦ rw q (omega arith, (refl, tt))
        | inr q ↦ rw q (omega (arith, short), (refl, same))
      ]

  delete_known-rooms :
      (eng : Option EngineInstance) (room_id : String) (r : GameRoom) (v : Server)
      → ((delete_known env eng room_id r v).rooms ≡ erase room_id v.rooms)
        × ((delete_known env eng room_id r v).heap ≡ v.heap)
  unfolding delete_known
  delete_known-rooms eng room_id r v = elim (Bool-cases (not (is_waiting r.status))) [
    | inr q ↦ rw q (refl, refl)
    | inl q ↦ rw q (elim (Bool-cases (send_destroy_room_request_sync env eng room_id r.node_id).0) [
      | inl d ↦ rw d (refl, refl)
      | inr d ↦ rw d (refl, refl)
    ])
  ]

  -- DeleteRoom removes the room whether or not the engine can be told, and no other room.
  pub delete_room_lem :
      (eng : Option EngineInstance) (room_id : String) (v : Server) (k : String)
      → lookup k (delete_room env eng room_id v).rooms
        ≡ (if str_eq room_id k then none else lookup k v.rooms)
  unfolding delete_room
  delete_room_lem eng room_id v k = elim (Option-cases (lookup room_id v.rooms)) [
    | inr (r, q) ↦
        rw (q, delete_room)
          (ap (λ m. lookup k m) (delete_known-rooms eng room_id r v).0
            ∙ lookup-erase room_id k v.rooms)
    | inl q ↦
        rw (q, delete_room)
          (elim (Bool-cases (str_eq room_id k)) [
            | inl hit ↦
                rw hit (subst (λ j. lookup j v.rooms ≡ none) ((str_eq_iff room_id k).0 hit) q)
            | inr miss ↦ rw miss refl
          ])
  ]

  -- The request to destroy a room on a node is sent at most three times, always the same; it counts as
  -- done exactly if the engine answers one of the three attempts with success.
  pub send_destroy_room_request_sync_lem :
      (e : EngineInstance) (room_id : String) (node_id : ℤ) (n : EngineNode)
      → get_node_by_pod_index e node_id ≡ some n
      → let sent = send_destroy_room_request_sync env (some e) room_id node_id in
        ((sent.0 ≡ true) ↔ Succeeds (env.call_destroy_room n.client room_id) 1 4)
        × (length sent.1 ≤ 3)
        × All (λ c. c ≡ destroy_room_call n.client room_id) sent.1
  unfolding send_destroy_room_request_sync
  send_destroy_room_request_sync_lem e room_id node_id n q =
      let (short, same) = destroy_attempts-calls 3 1 n.client room_id in
      rw (q, send_destroy_room_request_sync)
        (
          (destroy_attempts-true 3 1 n.client room_id, true-destroy_attempts 3 1 n.client room_id),
          short,
          same,
        )

  -- What leaving does to the rooms and to the session of the player who leaves.
  abbrev Leaves : String → GameRoom → ℕ → Server → Server → Type 0
  Leaves room_id r p v w =
      ((k : String)
        → lookup k w.rooms
          ≡ (if str_eq room_id k then remainder r (player_id v p) else lookup k v.rooms))
      × ((w.heap.cell p).room_id ≡ "")

  leave_others-Leaves :
      (room_id : String) (r : GameRoom) (p : ℕ) (v : Server)
      → nat_eq (length (departed r (player_id v p)).sessions) 0 ≡ false
      → let r' = departed r (player_id v p) in
        Leaves room_id r p v (
          leave_others env room_id
            (player_id v p)
            r'
            (record (set_rooms v (insert room_id r' v.rooms)) { heap = set_room_id v.heap p "" }))
  unfolding leave_others
  leave_others-Leaves room_id r p v some_left = elim (Bool-cases (is_playing r.status)) [
    | inl q ↦
        rw (q, some_left)
          (
            (λ k. lookup-insert_twice room_id k _ _ v.rooms),
            room_id-broadcast env.marshals _ _ _ p
                ∙ room_id-broadcast env.marshals _ _ _ p
                ∙ set_room_id_self v.heap p "",
          )
    | inr q ↦
        rw (q, some_left)
          (
            (λ k. lookup-insert room_id k _ v.rooms),
            room_id-broadcast env.marshals _ _ _ p ∙ set_room_id_self v.heap p "",
          )
  ]

  leave_known-Leaves :
      (eng : Option EngineInstance) (room_id : String) (r : GameRoom) (p : ℕ) (v : Server)
      → Leaves room_id r p v (leave_known env eng room_id r p v)
  unfolding leave_known delete_room
  leave_known-Leaves eng room_id r p v =
      elim (Bool-cases (nat_eq (length (departed r (player_id v p)).sessions) 0)) [
        | inr q ↦ let others = leave_others-Leaves room_id r p v q in rw q (rw q at others)
        | inl q ↦ rw q (
            rw (lookup-insert_self room_id (departed r (player_id v p)) v.rooms, delete_room)
              (let (rooms, heap) =
                  delete_known-rooms eng room_id (departed r (player_id v p))
                    (record (set_rooms v (insert room_id (departed r (player_id v p)) v.rooms)) {
                      heap = set_room_id v.heap p "";
                    }) in
                (
                  (λ k.
                      ap (λ m. lookup k m) (rooms ∙ erase-insert room_id _ v.rooms)
                      ∙ lookup-erase room_id k v.rooms),
                  ap (λ (h : Heap). (h.cell p).room_id) heap ∙ set_room_id_self v.heap p "",
                )))
      ]

  -- Leaving a known room: the room is gone if the player was its last one; otherwise it goes on without
  -- him and his ready flag, and a running game is over. Every other room is as it was, and the
  -- player's session is in no room.
  pub leave_room_lem :
      (eng : Option EngineInstance) (room_id : String) (p : ℕ) (v : Server) (r : GameRoom)
      → lookup room_id v.rooms ≡ some r
      → Leaves room_id r p v (leave_room env eng room_id p v)
  unfolding leave_room
  leave_room_lem eng room_id p v r q = rw (q, leave_room) (leave_known-Leaves eng room_id r p v)
