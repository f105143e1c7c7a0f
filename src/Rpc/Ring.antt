-- ===== src/Rpc/Ring.antt =====
-- internal/rpc/client.go: NodeManager, the registry of C++ nodes and its consistent-hash ring.
-- hash/crc32 is the parameter `crc32`; strconv.Itoa is written out; a client is a handle.
pub mod Search
pub mod Laws
pub mod Lookup
use pokemon_simulator_server.Base.{
  ℕ, zero, suc, ◌+◌, ◌-◌, ◌/◌, ◌%◌, String, str_append, Bool, true, false, Option, none, some, List,
  [], ◌∷◌, ◌++◌, ℤ, pos, negsuc, integer_eq, natural_eq, nat_order, sort, length, get_elem?, Map,
  keys, lookup, insert, erase, leb, ltb, nat_eq, not, if◌then◌else◌,
}
use Search.{search, get_or}

pub record CppNode : Type 0 where
  pub id : ℤ
  pub addr : String
  pub client : ℕ

pub record NodeManager : Type 0 where
  pub nodes : Map ℤ CppNode
  pub ring : List ℕ
  pub ring_map : Map ℕ ℤ

-- var Mgr
abbrev pub empty_manager : NodeManager
empty_manager = record { nodes = []; ring = []; ring_map = [] }

abbrev digit : ℕ → String
digit d =
    if nat_eq d 0
    then "0"
    else if nat_eq d 1
    then "1"
    else if nat_eq d 2
    then "2"
    else if nat_eq d 3
    then "3"
    else if nat_eq d 4
    then "4"
    else if nat_eq d 5
    then "5"
    else if nat_eq d 6
    then "6"
    else if nat_eq d 7
    then "7"
    else if nat_eq d 8
    then "8"
    else "9"

-- Twenty digits are enough for a 64-bit number.
unfoldable pub decimal : ℕ → ℕ → String
decimal zero n = ""
decimal (suc f) n =
    let rest = str_append (decimal f (n / 10)) (digit (n % 10)) in
    if ltb n 10 then digit n else rest

-- strconv.Itoa
unfoldable pub itoa : ℤ → String
unfolding decimal
itoa (pos n) = decimal 20 n
itoa (negsuc n) = str_append "-" (decimal 20 (suc n))

pub record Points : Type 0 where
  pub ring : List ℕ
  pub ring_map : Map ℕ ℤ

abbrev pub virtual_nodes : ℕ
virtual_nodes = 100

-- The first node whose id is at hand, or the error "no nodes".
pub data RingResult : Type 0 where
  no_nodes : RingResult
  found : Option CppNode → RingResult

-- sort.Search over the ring, starting again at 0 past its end
unfoldable pub ring_index : List ℕ → ℕ → ℕ
unfolding search
ring_index ring h =
    let idx = search (λ i. leb h (get_or ring i 0)) (length ring) in
    if nat_eq idx (length ring) then 0 else idx

-- m.Nodes[m.RingMap[m.Ring[idx]]]: a missing key reads as 0, a missing node as nil.
unfoldable pub node_at : NodeManager → ℕ → Option CppNode
unfolding lookup
node_at m h = elim (lookup h m.ring_map) [
  | none ↦ lookup (pos 0) m.nodes
  | some id ↦ lookup id m.nodes
]

module _ (crc32 : String → ℕ) where
  -- The hash of "node_" + strconv.Itoa(nodeID) + "_" + strconv.Itoa(i)
  unfoldable pub virtual_key : ℤ → ℕ → ℕ
  unfolding itoa
  virtual_key id i =
      crc32 (str_append "node_" (str_append (itoa id) (str_append "_" (itoa (pos i)))))

  -- The inner loop, from `i` with `left` rounds to go.
  unfoldable pub add_points : ℕ → ℕ → ℤ → Points → Points
  unfolding virtual_key insert
  add_points zero i id p = p
  add_points (suc left) i id p = add_points left (i + 1) id (record {
    ring = p.ring ++ (virtual_key id i ∷ []);
    ring_map = insert (virtual_key id i) id p.ring_map;
  })

  unfoldable pub add_nodes : List ℤ → Points → Points
  unfolding add_points
  add_nodes [] p = p
  add_nodes (id ∷ ids) p = add_nodes ids (add_points virtual_nodes 0 id p)

  -- rebuildRingLocked
  unfoldable pub rebuild_ring : Map ℤ CppNode → NodeManager
  unfolding add_nodes sort nat_order
  rebuild_ring nodes =
      let p = add_nodes (keys nodes) (record { ring = []; ring_map = [] }) in
      record { nodes = nodes; ring = sort nat_order p.ring; ring_map = p.ring_map }

  -- RegisterNode
  unfoldable pub register_node : NodeManager → ℤ → String → ℕ → NodeManager
  unfolding rebuild_ring insert
  register_node m id addr client =
      rebuild_ring (insert id (record { id = id; addr = addr; client = client }) m.nodes)

  unfoldable pub removed : NodeManager → ℤ → Option CppNode → NodeManager
  unfolding rebuild_ring erase
  removed m id none = m
  removed m id (some n) = rebuild_ring (erase id m.nodes)

  -- RemoveNode
  unfoldable pub remove_node : NodeManager → ℤ → NodeManager
  unfolding removed lookup
  remove_node m id = removed m id (lookup id m.nodes)

  -- GetNodeByRoomID
  unfoldable pub get_node_by_room_id : NodeManager → String → RingResult
  get_node_by_room_id m room_id =
      if nat_eq (length m.ring) 0
      then no_nodes
      else found (node_at m (get_or m.ring (ring_index m.ring (crc32 room_id)) 0))

-- GetNodeByID
unfoldable pub get_node_by_id : NodeManager → ℤ → Option CppNode
unfolding lookup
get_node_by_id m id = lookup id m.nodes
