-- ===== src/Room/Reassign/Moves.antt =====
-- internal/room/manager.go: what ReassignRunningRoomsFromUnavailableNodes does to the rooms.
use pokemon_simulator_server.Base.{
  ℕ, ◌≡◌, ◌⊎◌, refl, sym, ◌∙◌, ap, String, true, false, Option, none, some, [], ◌∷◌, ℤ, int_eq,
  integer_eq, string_eq, Map, keys, lookup, insert, is_some, subst, All, All-imp, All-insert,
  keys-insert_known, is_some-lookup-keys, Bool-cases, Option-cases, inl, inr,
}
use pokemon_simulator_server.Engine.Node.{EngineNode}
use pokemon_simulator_server.Engine.Instance.{EngineInstance, get_node}
use pokemon_simulator_server.Room.GameRoom.{GameRoom, is_playing}
use pokemon_simulator_server.Room.Env.{Env, Marshalled, json, unsupported}
use pokemon_simulator_server.Room.Manager.{Server}
use pokemon_simulator_server.Room.Manager.Closing.{is_ok}
use pokemon_simulator_server.Room.Failover.{
  pick_healthy_node_for_room, pick_healthy_node_for_room-some,
}
use pokemon_simulator_server.Room.Reassign.{
  Persisted, settle, create_on, recreate, move_playing, move_to, move_room, move_rooms,
  count_result,
}
use pokemon_simulator_server.Store.{
  RoomSnapshot, Redis, Codec, Loaded, loaded, load_error, load_room_snapshot,
}

module _ (env : Env) (R : Redis) (codec : Codec) (after_destroy : String → R.State → R.State)
    (now : ℤ) (e : EngineInstance) where
  -- The engine accepted the playing room r on a healthy node n, which is not the one that r was on.
  pub record MovesTo (r : GameRoom) (n : EngineNode) : Type 0 where
    pub index : ℤ
    pub registered : get_node e index ≡ some n
    pub is_healthy : n.healthy ≡ true
    pub elsewhere : int_eq index r.node_id ≡ false
    pub was_playing : is_playing r.status ≡ true
    pub payload : String
    pub accepted : is_ok (env.call_create_room n.client r.id payload 1) ≡ true

  -- r' is the room r, or r on another node that accepted it.
  abbrev pub Moved : GameRoom → GameRoom → Type 0
  Moved r r' =
      (r' ≡ r) ⊎ ((n : EngineNode) × (MovesTo r n × (r' ≡ record r { node_id = n.pod_index })))

  -- The node n accepted the room r, playing, for some payload.
  abbrev Accepts : EngineNode → GameRoom → Type 0
  Accepts n r = (payload : String) × (is_ok (env.call_create_room n.client r.id payload 1) ≡ true)

  -- What one round does to the server: nothing to the rooms, or the room is on the node n, which accepted it.
  abbrev Settled : EngineNode → String → GameRoom → Server → Server → Type 0
  Settled n key r v w =
      (w.heap ≡ v.heap)
      × ((w.rooms ≡ v.rooms)
          ⊎ (Accepts n r × (w.rooms ≡ insert key (record r { node_id = n.pod_index }) v.rooms)))

  create_on-Settled :
      (n : EngineNode) (key : String) (r : GameRoom) (snapshot : RoomSnapshot) (m : Marshalled)
      (s : R.State) (v : Server)
      → Settled n key r v
          (create_on env R codec after_destroy now e n key r snapshot m s v).0.server
  unfolding create_on settle
  create_on-Settled n key r snapshot (unsupported err) s v = (refl, inl refl)
  create_on-Settled n key r snapshot (json payload) s v =
      elim (Bool-cases (is_ok (env.call_create_room n.client r.id payload 1))) [
        | inl q ↦ rw q (refl, inr ((payload, q), refl))
        | inr q ↦ rw q (refl, inl refl)
      ]

  recreate-Settled :
      (n : EngineNode) (key : String) (r : GameRoom) (found : Loaded RoomSnapshot) (s : R.State)
      (v : Server)
      → Settled n key r v (recreate env R codec after_destroy now e n key r found s v).0.server
  unfolding recreate
  recreate-Settled n key r (load_error err) s v = (refl, inl refl)
  recreate-Settled n key r (loaded snapshot) s v =
      create_on-Settled n key r snapshot (codec.marshal snapshot) s v

  move_playing-Settled :
      (n : EngineNode) (key : String) (r : GameRoom) (store : Option R.State) (v : Server)
      → Settled n key r v (move_playing env R codec after_destroy now e n key r store v).0.server
  unfolding move_playing
  move_playing-Settled n key r none v = (refl, inl refl)
  move_playing-Settled n key r (some s) v =
      recreate-Settled n key r (load_room_snapshot R codec r.id s) s v

  -- What one round does to the rooms, if each node is registered under its own index.
  move_room-Moved :
      (named : All (λ (p : ℤ × EngineNode). p.1.pod_index ≡ p.0) e.nodes) (key : String)
      (r : GameRoom) (x : Persisted R)
      → let w = (move_room env R codec after_destroy now e key r x).0.server in
        (w.heap ≡ x.server.heap)
        × ((w.rooms ≡ x.server.rooms)
            ⊎ ((n : EngineNode) × (MovesTo r n
                  × (w.rooms ≡ insert key (record r { node_id = n.pod_index }) x.server.rooms))))
  unfolding move_room move_to
  move_room-Moved named key r x =
      elim (Option-cases (pick_healthy_node_for_room env.crc32 (some e) r.id r.node_id)) [
        | inl q ↦ rw (q, move_to) (refl, inl refl)
        | inr (n, q) ↦ elim (Bool-cases (is_playing r.status)) [
          | inr p ↦ rw (q, move_to, p) (refl, inl refl)
          | inl p ↦
              rw (q, move_to, p)
                (let (heap, done) = move_playing-Settled n key r x.store x.server in
                  (
                    heap,
                    elim done [
                      | inl same ↦ inl same
                      | inr ((payload, ok), moved) ↦
                          let (i, found, good, other) =
                            pick_healthy_node_for_room-some env.crc32 e r.id r.node_id named q in
                          inr (
                            n,
                            (
                              record {
                                index = i;
                                registered = found;
                                is_healthy = good;
                                elsewhere = other;
                                was_playing = p;
                                payload = payload;
                                accepted = ok;
                              },
                              moved,
                            ),
                          )
                    ],
                  ))
        ]
      ]

  -- The sessions and the keys are kept, and Q holds of all rooms.
  abbrev pub Passed : (String × GameRoom → Type 0) → Server → Server → Type 0
  Passed Q v w = (w.heap ≡ v.heap) × ((keys w.rooms ≡ keys v.rooms) × All Q w.rooms)

  -- What a pass over some rooms does to the server, where T holds of these rooms, Q of the server's
  -- rooms, and a room with T has Q once it is moved.
  module _ (T Q : String × GameRoom → Type 0)
      (kept : (k : String) (r : GameRoom) (n : EngineNode)
        → T (k, r)
        → MovesTo r n
        → Q (k, record r { node_id = n.pod_index }))
      (named : All (λ (p : ℤ × EngineNode). p.1.pod_index ≡ p.0) e.nodes) where
    round-Passed :
        (key : String) (r : GameRoom) (x : Persisted R)
        → T (key, r)
        → is_some (lookup key x.server.rooms) ≡ true
        → All Q x.server.rooms
        → Passed Q x.server (move_room env R codec after_destroy now e key r x).0.server
    round-Passed key r x t known h =
        let (heap, done) = move_room-Moved named key r x in
        elim done [
          | inl same ↦ (heap, (ap keys same, subst (All Q) (sym same) h))
          | inr (n, (to, moved)) ↦ (
            heap,
            (
              ap keys moved
                  ∙ keys-insert_known key (record r { node_id = n.pod_index }) x.server.rooms known,
              subst (All Q) (sym moved) (
                  All-insert Q key (record r { node_id = n.pod_index }) x.server.rooms
                    (λ j same. rw same (kept key r n t to)) h),
            ),
          )
        ]

    pub move_rooms-Passed :
        (targets : Map String GameRoom) (x : Persisted R) (n : ℕ × ℕ)
        → All T targets
        → All (λ (t : String × GameRoom). is_some (lookup t.0 x.server.rooms) ≡ true) targets
        → All Q x.server.rooms
        → Passed Q x.server (move_rooms env R codec after_destroy now e targets (x, n)).0.server
    unfolding move_rooms
    move_rooms-Passed [] x n ts known h = (refl, (refl, h))
    move_rooms-Passed ((key, r) ∷ targets) x n ts known h =
        let tried = move_room env R codec after_destroy now e key r x in
        let (heap, (same, h')) = round-Passed key r x ts.0 known.0 h in
        let (heaps, (all_same, h'')) =
          move_rooms-Passed targets tried.0 (count_result tried.1 n) ts.1
            (All-imp targets
              (λ t q. is_some-lookup-keys t.0 tried.0.server.rooms x.server.rooms same ∙ q) known.1)
            h' in
        (heaps ∙ heap, (all_same ∙ same, h''))
