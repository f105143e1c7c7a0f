-- ===== src/Room/Reassign/Pass.antt =====
-- internal/room/manager.go: a whole pass of ReassignRunningRoomsFromUnavailableNodes.
use pokemon_simulator_server.Base.{
  ◌≡◌, ◌⊎◌, refl, sym, String, true, Option, none, some, List, [], ◌∷◌, Memᴰ, ℤ, integer_eq,
  string_eq, Map, keys, lookup, is_some, subst, All, All-imp, All-keys-lookup, Bool-cases, inl, inr,
}
use pokemon_simulator_server.Engine.Node.{EngineNode}
use pokemon_simulator_server.Engine.Instance.{EngineInstance, get_status}
use pokemon_simulator_server.Room.Heap.{Heap}
use pokemon_simulator_server.Room.GameRoom.{GameRoom}
use pokemon_simulator_server.Room.Env.{Env}
use pokemon_simulator_server.Room.Invariant.{IsRoom, IsServer, IsRoom-node_id}
use pokemon_simulator_server.Room.Reassign.{
  Persisted, PodMaps, pod_maps, is_target, target_rooms, reassign_with,
  reassign_running_rooms_from_unavailable_nodes,
}
use pokemon_simulator_server.Room.Reassign.Moves.{MovesTo, Passed, move_rooms-Passed}
use pokemon_simulator_server.Room.Reassign.Reasons.{Reason, is_target-Reason}
use pokemon_simulator_server.Store.{Redis, Codec}

module _ (env : Env) (R : Redis) (codec : Codec) (after_destroy : String → R.State → R.State)
    (now : ℤ) where
  -- Entries of a map, with a property of all of them.
  target_rooms-All {κ} :
      (P : String × GameRoom → Type κ) (m : PodMaps) (store : Option R.State)
      (rooms : Map String GameRoom)
      → All P rooms
      → All
          (λ (t : String × GameRoom).
            P t × (is_target env R codec after_destroy now m store t.1 ≡ true))
          (target_rooms env R codec after_destroy now m store rooms)
  unfolding target_rooms
  target_rooms-All P m store [] h = tt
  target_rooms-All P m store (t ∷ rooms) h =
      let rest = target_rooms-All P m store rooms h.1 in
      elim (Bool-cases (is_target env R codec after_destroy now m store t.1)) [
        | inl q ↦ rw q ((h.0, q), rest)
        | inr q ↦ rw q rest
      ]

  entries-known :
      (rooms before : Map String GameRoom)
      → All (λ k. is_some (lookup k rooms) ≡ true) (keys before)
      → All (λ (t : String × GameRoom). is_some (lookup t.0 rooms) ≡ true) before
  entries-known rooms [] h = tt
  entries-known rooms (t ∷ before) h = (h.0, entries-known rooms before h.1)

  known :
      (rooms : Map String GameRoom)
      → All (λ (t : String × GameRoom). is_some (lookup t.0 rooms) ≡ true) rooms
  known rooms =
      entries-known rooms rooms
        (All-imp (keys rooms) (λ k (r, q). rw q refl) (All-keys-lookup rooms))

  -- Where a room of the server after a pass comes from.
  pub record Origin (e : EngineInstance) (x : Persisted R) (t : String × GameRoom) : Type 0 where
    pub room : GameRoom
    pub was_there : Memᴰ (t.0, room) x.server.rooms
    pub moved :
        (t.1 ≡ room)
        ⊎ (Reason R codec (get_status e).nodes x.store room
            × ((n : EngineNode) × (MovesTo env R codec after_destroy now e room n
                  × (t.1 ≡ record room { node_id = n.pod_index }))))

  members : (rooms : Map String GameRoom) → All (λ t. Memᴰ t rooms) rooms
  members [] = tt
  members (t ∷ rooms) = (Memᴰ.head refl, All-imp rooms (λ u h. Memᴰ.tail h) (members rooms))

  -- A pass, in terms of any two properties as above.
  reassign_with-Passed :
      (e : EngineInstance) (is : List ℤ) (m : PodMaps) (x : Persisted R)
      (T Q : String × GameRoom → Type 0)
      (kept : (k : String) (r : GameRoom) (n : EngineNode)
        → T (k, r) × (is_target env R codec after_destroy now m x.store r ≡ true)
        → MovesTo env R codec after_destroy now e r n
        → Q (k, record r { node_id = n.pod_index }))
      → All (λ (p : ℤ × EngineNode). p.1.pod_index ≡ p.0) e.nodes
      → All T x.server.rooms
      → All Q x.server.rooms
      → Passed env R codec after_destroy now e Q x.server
          (reassign_with env R codec after_destroy now e is m x).0.server
  unfolding reassign_with
  reassign_with-Passed e [] m x T Q kept named ts qs = (refl, (refl, qs))
  reassign_with-Passed e (i ∷ is) m x T Q kept named ts qs =
      move_rooms-Passed env R codec after_destroy now e
        (λ t. T t × (is_target env R codec after_destroy now m x.store t.1 ≡ true)) Q kept named
        (target_rooms env R codec after_destroy now m x.store x.server.rooms) x (0, 0)
        (target_rooms-All T m x.store x.server.rooms ts)
        (All-imp _ (λ t h. h.0)
          (target_rooms-All (λ (t : String × GameRoom). is_some (lookup t.0 x.server.rooms) ≡ true)
            m x.store x.server.rooms (known x.server.rooms)))
        qs

  -- The maps of a pass.
  abbrev pub maps_of : EngineInstance → PodMaps
  maps_of e = pod_maps (get_status e).nodes (record { healthy = []; server_ids = [] })

  -- A pass creates and removes no room and changes no session. Each room is one of the rooms before,
  -- as it was, or with another node: then no node was reported healthy under its old index, or its
  -- snapshot names another server than the node reported there; the room was playing; and the new node is registered,
  -- healthy, not the old one, and answered CreateRoom with success. Each node is registered under its
  -- own index.
  pub reassign-Origin :
      (e : EngineInstance) (x : Persisted R)
      → All (λ (p : ℤ × EngineNode). p.1.pod_index ≡ p.0) e.nodes
      → Passed env R codec after_destroy now e
          (Origin e x)
          x.server
          (reassign_running_rooms_from_unavailable_nodes env R codec after_destroy now
            (some e)
            x).0.server
  unfolding reassign_running_rooms_from_unavailable_nodes
  reassign-Origin e x named =
      reassign_with-Passed e (maps_of e).healthy (maps_of e) x (λ t. Memᴰ t x.server.rooms)
        (Origin e x)
        (λ k r n (there, target) to. record {
          room = r;
          was_there = there;
          moved = inr (
            is_target-Reason env R codec after_destroy now (get_status e).nodes x.store r target,
            (n, (to, refl)),
          );
        })
        named (members x.server.rooms)
        (All-imp x.server.rooms
          (λ t there. record { room = t.1; was_there = there; moved = inl refl })
          (members x.server.rooms))

  -- A pass keeps every room well formed.
  pub reassign-IsServer :
      (eng : Option EngineInstance) (x : Persisted R)
      → ((e : EngineInstance)
          → eng ≡ some e
          → All (λ (p : ℤ × EngineNode). p.1.pod_index ≡ p.0) e.nodes)
      → IsServer x.server
      → IsServer
          (reassign_running_rooms_from_unavailable_nodes env R codec after_destroy now eng
            x).0.server
  unfolding reassign_running_rooms_from_unavailable_nodes
  reassign-IsServer none x named ws = ws
  reassign-IsServer (some e) x named ws =
      let (heap, (same, all)) =
        reassign_with-Passed e (maps_of e).healthy (maps_of e) x (IsRoom x.server.heap)
          (IsRoom x.server.heap)
          (λ k r n (w, target) to. IsRoom-node_id x.server.heap k r n.pod_index w) (named e refl) ws
          ws in
      subst
        (λ (h : Heap).
          All (IsRoom h)
            (reassign_with env R codec after_destroy now e (maps_of e).healthy (maps_of e)
              x).0.server.rooms)
        (sym heap) all
