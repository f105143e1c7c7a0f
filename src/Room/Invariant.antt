-- ===== src/Room/Invariant.antt =====
-- internal/room: what holds of every room between two operations.
pub mod Enter
pub mod Leave
pub mod Play
pub mod Sends
pub mod Select
pub mod Steps
use pokemon_simulator_server.Base.{
  ℕ, ◌≤◌, ◌<◌, ◌≡◌, refl, sym, ◌∙◌, ap, String, Bool, true, false, List, [], ◌∷◌, ℤ, arith,
  string_eq, Map, keys, lookup, insert, erase, length, is_some, All, All-imp, All-insert, All-erase,
  if◌then◌else◌, Eq, nat_eq, nat_eq_iff, Bool-cases, inl, inr,
}
use pokemon_simulator_server.Protocol.{Player, GameResponse}
use pokemon_simulator_server.Room.Session.{Session}
use pokemon_simulator_server.Room.Heap.{
  Heap, update, reply, broadcast, player-reply, player-broadcast, next-reply, next-broadcast,
}
use pokemon_simulator_server.Room.GameRoom.{GameRoom, RoomStatus}
use pokemon_simulator_server.Room.Manager.{Server, set_room_id}

-- A room under its key: it carries the key as its id, has one or two players, keeps a ready flag for
-- exactly these players, and lists each of them under the id of that player's session, a session that
-- has been allocated.
abbrev pub Listed : Heap → String × ℕ → Type 0
Listed h (id, p) = ((h.cell p).player.id ≡ id) × (p < h.next)

pub record IsRoom (h : Heap) (e : String × GameRoom) : Type 0 where
  pub named : e.1.id ≡ e.0
  pub flagged : keys e.1.sessions ≡ keys e.1.ready_players
  pub occupied : 1 ≤ length e.1.sessions
  pub capped : length e.1.sessions ≤ 2
  pub players : All (Listed h) e.1.sessions

abbrev pub AreRooms : Heap → Map String GameRoom → Type 0
AreRooms h = All (IsRoom h)

-- All rooms of the server are such rooms.
abbrev pub IsServer : Server → Type 0
IsServer v = AreRooms v.heap v.rooms

-- The sessions of two heaps are as many and belong to the same players.
pub record SamePlayers (g h : Heap) : Type 0 where
  pub at : (q : ℕ) → (h.cell q).player ≡ (g.cell q).player
  pub same_next : h.next ≡ g.next

pub SamePlayers-trans : {f g h : Heap} → SamePlayers f g → SamePlayers g h → SamePlayers f h
SamePlayers-trans a b = record { at = λ q. b.at q ∙ a.at q; same_next = b.same_next ∙ a.same_next }

-- Storing a session with the same player under its pointer.
pub SamePlayers-update :
    (h : Heap) (p : ℕ) (s : Session) → s.player ≡ (h.cell p).player → SamePlayers h (update h p s)
SamePlayers-update h p s e = record {
  at = λ q. elim (Bool-cases (nat_eq p q)) [
    | inl hit ↦ rw hit (e ∙ ap (λ k. (h.cell k).player) ((nat_eq_iff p q).0 hit))
    | inr miss ↦ rw miss refl
  ];
  same_next = refl;
}

pub SamePlayers-reply :
    (marshals : GameResponse → Bool) (p : ℕ) (m : GameResponse) (h : Heap)
    → SamePlayers h (reply marshals p m h)
SamePlayers-reply marshals p m h = record {
  at = player-reply marshals p m h;
  same_next = next-reply marshals p m h;
}

pub SamePlayers-broadcast :
    (marshals : GameResponse → Bool) (ps : List ℕ) (m : GameResponse) (h : Heap)
    → SamePlayers h (broadcast marshals ps m h)
SamePlayers-broadcast marshals ps m h = record {
  at = player-broadcast marshals ps m h;
  same_next = next-broadcast marshals ps m h;
}

pub SamePlayers-set_room_id :
    (h : Heap) (p : ℕ) (room_id : String) → SamePlayers h (set_room_id h p room_id)
SamePlayers-set_room_id h p room_id = SamePlayers-update h p _ refl

-- The sessions of g are still there in h, where others may have been allocated.
pub record Extends (g h : Heap) : Type 0 where
  pub at : (q : ℕ) → q < g.next → (h.cell q).player ≡ (g.cell q).player
  pub grown : g.next ≤ h.next

pub SamePlayers-Extends : {g h : Heap} → SamePlayers g h → Extends g h
SamePlayers-Extends same =
    let n = same.same_next in record { at = λ q b. same.at q; grown = omega (arith, n) }

pub players-heap :
    {g h : Heap} (m : Map String ℕ) → Extends g h → All (Listed g) m → All (Listed h) m
players-heap {g} {h} m ext = All-imp m (λ (id, p) (e, b).
    let grown = ext.grown in (ap (λ (k : Player). k.id) (ext.at p b) ∙ e, omega (arith, b, grown)))

pub IsRoom-Extends : {g h : Heap} → Extends g h → (e : String × GameRoom) → IsRoom g e → IsRoom h e
IsRoom-Extends ext e w = record {
  named = w.named;
  flagged = w.flagged;
  occupied = w.occupied;
  capped = w.capped;
  players = players-heap e.1.sessions ext w.players;
}

pub IsRoom-heap : {g h : Heap} → SamePlayers g h → (e : String × GameRoom) → IsRoom g e → IsRoom h e
IsRoom-heap same = IsRoom-Extends (SamePlayers-Extends same)

pub AreRooms-Extends :
    {g h : Heap} (m : Map String GameRoom) → Extends g h → AreRooms g m → AreRooms h m
AreRooms-Extends m ext w = All-imp m (IsRoom-Extends ext) w

pub AreRooms-heap :
    {g h : Heap} (m : Map String GameRoom) → SamePlayers g h → AreRooms g m → AreRooms h m
AreRooms-heap m same w = All-imp m (IsRoom-heap same) w

-- A room put under its key.
pub AreRooms-insert :
    (h : Heap) (m : Map String GameRoom) (k : String) (r : GameRoom)
    → IsRoom h (k, r)
    → AreRooms h m
    → AreRooms h (insert k r m)
AreRooms-insert h m k r w ws = All-insert (IsRoom h) k r m (λ j e. rw e w) ws

-- A room put under its key in a server whose sessions have since been written to.
pub IsServer-put :
    (v : Server) (h : Heap) (k : String) (r : GameRoom)
    → SamePlayers v.heap h
    → IsRoom h (k, r)
    → IsServer v
    → AreRooms h (insert k r v.rooms)
IsServer-put v h k r same w ws = AreRooms-insert h v.rooms k r w (AreRooms-heap v.rooms same ws)

pub AreRooms-erase :
    (h : Heap) (m : Map String GameRoom) (k : String) → AreRooms h m → AreRooms h (erase k m)
AreRooms-erase h m k ws = All-erase (IsRoom h) k m ws

-- The status and the node of a room are free to change.
pub IsRoom-status :
    (h : Heap) (k : String) (r : GameRoom) (s : RoomStatus)
    → IsRoom h (k, r)
    → IsRoom h (k, record r { status = s })
IsRoom-status h k r s w = record {
  named = w.named;
  flagged = w.flagged;
  occupied = w.occupied;
  capped = w.capped;
  players = w.players;
}

pub IsRoom-node_id :
    (h : Heap) (k : String) (r : GameRoom) (n : ℤ)
    → IsRoom h (k, r)
    → IsRoom h (k, record r { node_id = n })
IsRoom-node_id h k r n w = record {
  named = w.named;
  flagged = w.flagged;
  occupied = w.occupied;
  capped = w.capped;
  players = w.players;
}
