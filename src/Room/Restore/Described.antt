-- ===== src/Room/Restore/Described.antt =====
-- internal/room/manager.go: the room that a snapshot describes.
use pokemon_simulator_server.Base.{
  ℕ, ◌<◌, ◌≡◌, refl, sym, ◌∙◌, ap, subst, String, Bool, false, some, none, zero, suc, pos, negsuc,
  Option-cases, ◌⊎◌, List, [], ℤ, string_eq, str_eq, keys, lookup, All, inl, inr,
}
use pokemon_simulator_server.Room.Session.{Session}
use pokemon_simulator_server.Room.GameRoom.{GameRoom, status_of_int, int_of_status}
use pokemon_simulator_server.Room.Manager.{Server}
use pokemon_simulator_server.Room.Restore.{restored_flag, restored_team, flag_or_false}
use pokemon_simulator_server.Room.Restore.Players.{Revived}
use pokemon_simulator_server.Room.Restore.Named.{Present, Names}
use pokemon_simulator_server.Room.Restore.Copies.{SameTeam, copy_selected_pokemon_lem}
use pokemon_simulator_server.Protocol.{JsonObject}
use pokemon_simulator_server.Room.Heap.{Heap}
use pokemon_simulator_server.Store.{RoomSnapshot}

-- The team is the one that is saved for the player, object by object, or empty if there is none.
abbrev pub TeamOf : RoomSnapshot → String → List JsonObject → Type 0
TeamOf snapshot id team =
    ((lookup id snapshot.selected_pokemon ≡ none) × (team ≡ []))
    ⊎ ((saved : List JsonObject) × (lookup id snapshot.selected_pokemon ≡ some saved)
        × SameTeam team saved)

-- The session of the player in the room that the snapshot describes, offline and without messages.
pub record IsRevived (snapshot : RoomSnapshot) (h : Heap) (t : String × ℕ) : Type 0 where
  pub allocated : t.1 < h.next
  pub player_id : (h.cell t.1).player.id ≡ t.0
  pub room_id : (h.cell t.1).room_id ≡ snapshot.room_id
  pub offline : (h.cell t.1).conn ≡ none
  pub unsent : (h.cell t.1).send ≡ []
  pub team : TeamOf snapshot t.0 (h.cell t.1).selected_pokemon

-- The flag is the one that is saved for the player, or false if there is none.
abbrev pub FlagOf : RoomSnapshot → String × Bool → Type 0
FlagOf snapshot f =
    (lookup f.0 snapshot.ready_players ≡ some f.1)
    ⊎ ((lookup f.0 snapshot.ready_players ≡ none) × (f.1 ≡ false))

-- The room r of the server w is what the snapshot says: its id, status and node; every player that it
-- names in any field and no others, each with a session that the table lists under his id, and their
-- ready flags.
pub record IsRestored (snapshot : RoomSnapshot) (w : Server) (r : GameRoom) : Type 0 where
  pub id : r.id ≡ snapshot.room_id
  pub status : int_of_status r.status ≡ snapshot.status
  pub known_status : r.status ≡ status_of_int snapshot.status
  pub node_id : r.node_id ≡ snapshot.node_id
  pub all_players : All (Present r.sessions) snapshot.players
  pub all_ready : All (Present r.sessions) (keys snapshot.ready_players)
  pub all_teams : All (Present r.sessions) (keys snapshot.selected_pokemon)
  pub no_others : All (λ k. (str_eq k "" ≡ false) × Names snapshot k) (keys r.sessions)
  pub revived : All (IsRevived snapshot w.heap) r.sessions
  pub registered :
      (k : String) → (lookup k r.sessions ≡ none) ⊎ (lookup k w.all_sessions ≡ lookup k r.sessions)
  pub flagged : keys r.sessions ≡ keys r.ready_players
  pub flags : All (FlagOf snapshot) r.ready_players

pub int_of-status_of_int : (n : ℤ) → int_of_status (status_of_int n) ≡ n
int_of-status_of_int (pos zero) = refl
int_of-status_of_int (pos (suc zero)) = refl
int_of-status_of_int (pos (suc (suc zero))) = refl
int_of-status_of_int (pos (suc (suc (suc n)))) = refl
int_of-status_of_int (negsuc n) = refl

restored-TeamOf :
    (snapshot : RoomSnapshot) (id : String)
    → TeamOf snapshot id (restored_team (lookup id snapshot.selected_pokemon))
unfolding restored_team
restored-TeamOf snapshot id = elim (Option-cases (lookup id snapshot.selected_pokemon)) [
  | inl q ↦ inl (q, rw q refl)
  | inr (saved, q) ↦ inr (saved, q, rw q (copy_selected_pokemon_lem saved))
]

pub Revived-IsRevived :
    (snapshot : RoomSnapshot) (h : Heap) (t : String × ℕ)
    → Revived snapshot h t
    → IsRevived snapshot h t
Revived-IsRevived snapshot h (id, p) (e, b) = record {
  allocated = b;
  player_id = ap (λ (s : Session). s.player.id) e;
  room_id = ap (λ (s : Session). s.room_id) e;
  offline = ap (λ (s : Session). s.conn) e;
  unsent = ap (λ (s : Session). s.send) e;
  team =
      subst (λ (s : Session). TeamOf snapshot id s.selected_pokemon) (sym e)
        (restored-TeamOf snapshot id);
}

pub restored-FlagOf :
    (snapshot : RoomSnapshot) (f : String × Bool)
    → f.1 ≡ restored_flag snapshot f.0
    → FlagOf snapshot f
unfolding flag_or_false
restored-FlagOf snapshot (id, ready) e = elim (Option-cases (lookup id snapshot.ready_players)) [
  | inl q ↦ inr (q, rw q at e)
  | inr (saved, q) ↦ inl (q ∙ ap (λ b. some b) (sym (rw q at e)))
]
