-- ===== src/Room/Reassign/Reasons.antt =====
-- internal/room/manager.go: for which rooms ReassignRunningRoomsFromUnavailableNodes looks for a node.
use pokemon_simulator_server.Base.{
  ◌≡◌, ◌⊎◌, refl, String, str_eq, true, false, Option, none, some, List, [], ◌∷◌, Memᴰ, ℤ, arith,
  int_eq, int_eq_iff, integer_eq, lookup, lookup-insert, All, Bool-cases, Option-cases, inl, inr,
  none_ne_some, eq_of_some, if◌then◌else◌,
}
use pokemon_simulator_server.Engine.Node.{EngineNodeStatus}
use pokemon_simulator_server.Room.GameRoom.{GameRoom}
use pokemon_simulator_server.Room.Env.{Env}
use pokemon_simulator_server.Room.Reassign.{
  PodMaps, note_pod, pod_maps, is_member, is_stale, is_target,
}
use pokemon_simulator_server.Store.{
  RoomSnapshot, Redis, Codec, Loaded, loaded, load_error, load_room_snapshot,
}

-- No node that is reported healthy has this index.
abbrev pub NoneHealthy : List EngineNodeStatus → ℤ → Type 0
NoneHealthy nodes i =
    All (λ (s : EngineNodeStatus). (s.healthy ≡ false) ⊎ (int_eq s.pod_index i ≡ false)) nodes

-- The room's snapshot names another server than a node that is reported under the room's index.
pub record OtherServer (R : Redis) (codec : Codec) (nodes : List EngineNodeStatus)
    (store : Option R.State) (r : GameRoom) : Type 0 where
  pub state : R.State
  pub stored : store ≡ some state
  pub snapshot : RoomSnapshot
  pub read : load_room_snapshot R codec r.id state ≡ loaded snapshot
  pub status : EngineNodeStatus
  pub reported : Memᴰ status nodes
  pub of_room : status.pod_index ≡ r.node_id
  pub named : str_eq snapshot.server_id "" ≡ false
  pub other : str_eq status.server_id snapshot.server_id ≡ false

-- Why a node is sought for the room.
abbrev pub Reason : (R : Redis) → Codec → List EngineNodeStatus → Option R.State → GameRoom → Type 0
Reason R codec nodes store r = NoneHealthy nodes r.node_id ⊎ OtherServer R codec nodes store r

is_member-none : (i : ℤ) (is : List ℤ) → is_member i is ≡ false → All (λ j. int_eq j i ≡ false) is
unfolding is_member
is_member-none i [] h = tt
is_member-none i (j ∷ is) h = elim (Bool-cases (int_eq j i)) [
  | inl q ↦ absurd (cc (rw q at h))
  | inr q ↦ (q, is_member-none i is (rw q at h))
]

note_pod-healthy :
    (i : ℤ) (s : EngineNodeStatus) (m : PodMaps)
    → All (λ j. int_eq j i ≡ false) (note_pod s m).healthy
    → All (λ j. int_eq j i ≡ false) m.healthy
      × ((s.healthy ≡ false) ⊎ (int_eq s.pod_index i ≡ false))
unfolding note_pod
note_pod-healthy i s m h = elim (Bool-cases s.healthy) [
  | inr q ↦ (rw q at h, inl q)
  | inl q ↦ let listed = rw q at h in (listed.1, inr listed.0)
]

pod_maps-healthy :
    (i : ℤ) (ss : List EngineNodeStatus) (m : PodMaps)
    → All (λ j. int_eq j i ≡ false) (pod_maps ss m).healthy
    → All (λ j. int_eq j i ≡ false) m.healthy × NoneHealthy ss i
unfolding pod_maps
pod_maps-healthy i [] m h = (h, tt)
pod_maps-healthy i (s ∷ ss) m h =
    let (later, rest) = pod_maps-healthy i ss (note_pod s m) h in
    let (before, here) = note_pod-healthy i s m later in (before, (here, rest))

note_pod-ids :
    (i : ℤ) (s : EngineNodeStatus) (m : PodMaps)
    → lookup i (note_pod s m).server_ids
      ≡ (if int_eq s.pod_index i then some s.server_id else lookup i m.server_ids)
unfolding note_pod
note_pod-ids i s m = elim (Bool-cases s.healthy) [
  | inl q ↦ rw q (lookup-insert s.pod_index i s.server_id m.server_ids)
  | inr q ↦ rw q (lookup-insert s.pod_index i s.server_id m.server_ids)
]

-- Some node is reported under the index with this server.
pub record Reports (nodes : List EngineNodeStatus) (i : ℤ) (sid : String) : Type 0 where
  pub status : EngineNodeStatus
  pub reported : Memᴰ status nodes
  pub index : status.pod_index ≡ i
  pub server : status.server_id ≡ sid

pod_maps-ids :
    (i : ℤ) (ss : List EngineNodeStatus) (m : PodMaps) {sid : String}
    → lookup i (pod_maps ss m).server_ids ≡ some sid
    → Reports ss i sid ⊎ (lookup i m.server_ids ≡ some sid)
unfolding pod_maps
pod_maps-ids i [] m h = inr h
pod_maps-ids i (s ∷ ss) m {sid} h = elim (pod_maps-ids i ss (note_pod s m) h) [
  | inl f ↦ inl (record {
    status = f.status;
    reported = Memᴰ.tail f.reported;
    index = f.index;
    server = f.server;
  })
  | inr f ↦ elim (Bool-cases (int_eq s.pod_index i)) [
    | inl q ↦ inl (record {
      status = s;
      reported = Memᴰ.head refl;
      index = (int_eq_iff s.pod_index i).0 q;
      server = eq_of_some (rw (note_pod-ids i s m, q) at f);
    })
    | inr q ↦ inr (rw (note_pod-ids i s m, q) at f)
  ]
]

-- What a stale snapshot is.
is_stale-found :
    (l : Loaded RoomSnapshot) (o : Option String)
    → is_stale l o ≡ true
    → (snapshot : RoomSnapshot) × (sid : String) × ((l ≡ loaded snapshot)
        × ((o ≡ some sid)
            × ((str_eq snapshot.server_id "" ≡ false) × (str_eq sid snapshot.server_id ≡ false))))
unfolding is_stale
is_stale-found (load_error err) o h = absurd (cc h)
is_stale-found (loaded snapshot) none h = absurd (cc h)
is_stale-found (loaded snapshot) (some sid) h =
    (snapshot, sid, (refl, (refl, (ground arith, ground arith))))

module _ (env : Env) (R : Redis) (codec : Codec) (after_destroy : String → R.State → R.State)
    (now : ℤ) where
  -- Every room that is to be moved has a reason.
  pub is_target-Reason :
      (nodes : List EngineNodeStatus) (store : Option R.State) (r : GameRoom)
      → is_target env R codec after_destroy now
          (pod_maps nodes (record { healthy = []; server_ids = [] }))
          store
          r
        ≡ true
      → Reason R codec nodes store r
  unfolding is_target lookup
  is_target-Reason nodes store r h =
      let empty : PodMaps = record { healthy = []; server_ids = [] } in
      let m : PodMaps = pod_maps nodes empty in
      elim (Bool-cases (is_member r.node_id m.healthy)) [
        | inr q ↦
            inl (pod_maps-healthy r.node_id nodes empty (is_member-none r.node_id m.healthy q)).1
        | inl q ↦ elim (Option-cases store) [
          | inl none_there ↦ absurd (cc (rw (q, none_there) at h))
          | inr (s, there) ↦
              let (snapshot, sid, (read, (found, (named, other)))) =
                is_stale-found (load_room_snapshot R codec r.id s) (lookup r.node_id m.server_ids)
                  (rw (q, there) at h) in
              inr (elim (pod_maps-ids r.node_id nodes empty found) [
                | inr nowhere ↦ absurd (none_ne_some nowhere)
                | inl f ↦ record {
                  state = s;
                  stored = there;
                  snapshot = snapshot;
                  read = read;
                  status = f.status;
                  reported = f.reported;
                  of_room = f.index;
                  named = named;
                  other = rw f.server other;
                }
              ])
        ]
      ]
