-- ===== src/Examples/Stores.antt =====
-- What the theorems of Store say of a Redis that keeps its keys in a map.
use pokemon_simulator_server.Base.{
  ◌≡◌, refl, String, str_eq, string_eq, Bool, true, false, none, some, Option, [], ◌∷◌, pos, int_eq,
  negsuc, Map, keys, lookup, insert, erase, lookup-insert, lookup-erase, if◌then◌else◌,
}
use pokemon_simulator_server.Room.Env.{json, parsed}
use pokemon_simulator_server.Store.{
  RoomSnapshot, Reply, value, redis_nil, page, Redis, Codec, loaded, load_room_snapshot,
  save_room_snapshot, delete_room_snapshot, load_session_binding, write_snapshot,
}
use pokemon_simulator_server.Store.Laws.{IsLawful, load-save_room_snapshot}
use pokemon_simulator_server.Store.Listing.{read_keys, list_room_snapshots}
use pokemon_simulator_server.Store.Pages.{Pages, last, list_room_snapshots-Pages}

abbrev reply_of : Option String → Reply
reply_of none = redis_nil
reply_of (some v) = value v

-- SCAN answers with all keys at once, and no key expires.
abbrev pub memory : Redis
memory = record {
  State = Map String String;
  set = λ k v s. (insert k v s, none);
  del = λ k s. (erase k s, none);
  get = λ k s. reply_of (lookup k s);
  scan = λ cursor s. page (keys s) 0;
  ttl = λ k s. negsuc 0;
}

reply-if :
    (b : Bool) (o : Option String) (p : Option String)
    → reply_of (if b then o else p) ≡ (if b then reply_of o else reply_of p)
reply-if true o p = refl
reply-if false o p = refl

pub memory-IsLawful : IsLawful memory
memory-IsLawful = record {
  get-set = λ k v j s ok. rw (lookup-insert k j v s) (reply-if (str_eq k j) (some v) (lookup j s));
  get-del = λ k j s ok. rw (lookup-erase k j s) (reply-if (str_eq k j) none (lookup j s));
}

-- ann and bob play in the room "r", on node 0 of the server "one".
abbrev pub battle_r : RoomSnapshot
battle_r = record {
  room_id = "r";
  status = pos 1;
  node_id = pos 0;
  server_id = "one";
  players = "ann" ∷ "bob" ∷ [];
  ready_players = ("ann", true) ∷ ("bob", true) ∷ [];
  selected_pokemon = [];
  updated_at = pos 100;
}

-- The JSON of one snapshot.
abbrev pub codec_of : RoomSnapshot → Codec
codec_of snapshot = record { marshal = λ s. json "text"; unmarshal = λ t. parsed snapshot }

abbrev pub store_r : Map String String
store_r = ("pokemon:room:r", "text") ∷ []

abbrev pub codec_r : Codec
codec_r = codec_of battle_r

-- The JSON of the snapshots on node 0 and of those on other nodes.
abbrev pub codec_by_node : RoomSnapshot → RoomSnapshot → Codec
codec_by_node a b = record {
  marshal = λ s. if int_eq s.node_id (pos 0) then json "text" else json "moved";
  unmarshal = λ t. if str_eq t "text" then parsed a else parsed b;
}

saved_r : (save_room_snapshot memory codec_r battle_r (pos 200) []).1 ≡ none
unfolding save_room_snapshot write_snapshot
saved_r = refl

load-save_room_snapshot_example :
    let t = (save_room_snapshot memory codec_r battle_r (pos 200) []).0 in
    (load_room_snapshot memory codec_r "r" t ≡ loaded battle_r)
    × (load_session_binding memory "ann" t ≡ load_session_binding memory "ann" [])
load-save_room_snapshot_example =
    load-save_room_snapshot memory codec_r battle_r (pos 200) [] "r" "ann" memory-IsLawful
      (record { reads_back = λ t q. refl }) saved_r

deleted_r : (delete_room_snapshot memory "r" store_r).1 ≡ none
unfolding delete_room_snapshot
deleted_r = refl

pub store_r-Pages : Pages memory store_r 0 (("pokemon:room:r" ∷ []) ∷ [])
store_r-Pages = last refl

list_room_snapshots-Pages_example :
    list_room_snapshots memory codec_r 1 store_r
    ≡ some (read_keys memory codec_r ("pokemon:room:r" ∷ []) store_r [])
list_room_snapshots-Pages_example =
    list_room_snapshots-Pages memory codec_r (("pokemon:room:r" ∷ []) ∷ []) store_r store_r-Pages
