-- ===== src/Store/Listing.antt =====
-- internal/store/redis_store.go: the loops over SCAN. They run on a fuel of pages; `none` is a scan
-- that has not come to its end by then.
use pokemon_simulator_server.Base.{
  ℕ, zero, suc, String, str_append, str_eq, Bool, Option, none, some, List, [], ◌∷◌, ◌++◌, ℤ,
  negsuc, int_eq, if◌then◌else◌,
}
use pokemon_simulator_server.Room.Env.{Parsed, parsed, null, invalid}
use pokemon_simulator_server.Store.{
  RoomSnapshot, zero_snapshot, DebugRoomInfo, Reply, value, redis_nil, get_failed, page,
  scan_failed, Redis, Codec, message, Loaded, loaded, load_error, decode,
}

-- A snapshot without an id is left out.
unfoldable pub add_snapshot : RoomSnapshot → List RoomSnapshot → List RoomSnapshot
add_snapshot snapshot acc = if str_eq snapshot.room_id "" then acc else acc ++ (snapshot ∷ [])

unfoldable pub add_loaded : Loaded RoomSnapshot → List RoomSnapshot → Loaded (List RoomSnapshot)
add_loaded (loaded snapshot) acc = loaded (add_snapshot snapshot acc)
add_loaded (load_error err) acc = load_error err

-- ttl == -1
abbrev pub persistent : ℤ → Bool
persistent ttl = int_eq ttl (negsuc 0)

-- What json.Unmarshal leaves when its error is not looked at.
unfoldable pub decoded_anyway : Parsed RoomSnapshot → RoomSnapshot
decoded_anyway (parsed snapshot) = snapshot
decoded_anyway null = zero_snapshot
decoded_anyway (invalid err) = zero_snapshot

module _ (R : Redis) (codec : Codec) where
  -- One round of the loop over the keys of a page.
  unfoldable pub add_reply : String → Reply → List RoomSnapshot → Loaded (List RoomSnapshot)
  add_reply key redis_nil acc = loaded acc
  add_reply key (get_failed err) acc =
      load_error (
        message
          (str_append "load room snapshot key=" (str_append key (str_append " failed: " err))))
  add_reply key (value raw) acc =
      add_loaded
        (decode (str_append "unmarshal room snapshot key=" (str_append key " failed: "))
          (codec.unmarshal raw))
        acc

  unfoldable pub read_keys : List String → R.State → List RoomSnapshot → Loaded (List RoomSnapshot)
  read_keys [] s acc = loaded acc
  read_keys (key ∷ keys) s acc = elim (add_reply key (R.get key s) acc) [
    | load_error err ↦ load_error err
    | loaded acc' ↦ read_keys keys s acc'
  ]

  unfoldable pub list_from :
      ℕ → ℕ → R.State → List RoomSnapshot → Option (Loaded (List RoomSnapshot))
  list_from zero cursor s acc = none
  list_from (suc fuel) cursor s acc = elim (R.scan cursor s) [
    | scan_failed err ↦ some (load_error (message (str_append "scan room snapshots failed: " err)))
    | page keys next ↦ elim (read_keys keys s acc) [
      | load_error err ↦ some (load_error err)
      | loaded acc' ↦ elim next [
        | zero ↦ some (loaded acc')
        | suc cursor' ↦ list_from fuel (suc cursor') s acc'
      ]
    ]
  ]

  -- ListRoomSnapshots
  unfoldable pub list_room_snapshots : ℕ → R.State → Option (Loaded (List RoomSnapshot))
  list_room_snapshots fuel s = list_from fuel 0 s []

  unfoldable pub inspect_key : String → Reply → R.State → List DebugRoomInfo → List DebugRoomInfo
  inspect_key key (value raw) s acc =
      acc
      ++ (record {
        snapshot = decoded_anyway (codec.unmarshal raw);
        remaining_ttl = R.ttl key s;
        is_persistent = persistent (R.ttl key s);
      }
          ∷ [])
  inspect_key key err s acc = acc

  unfoldable pub inspect_keys : List String → R.State → List DebugRoomInfo → List DebugRoomInfo
  inspect_keys [] s acc = acc
  inspect_keys (key ∷ keys) s acc = inspect_keys keys s (inspect_key key (R.get key s) s acc)

  unfoldable pub inspect_from :
      ℕ → ℕ → R.State → List DebugRoomInfo → Option (Loaded (List DebugRoomInfo))
  inspect_from zero cursor s acc = none
  inspect_from (suc fuel) cursor s acc = elim (R.scan cursor s) [
    | scan_failed err ↦ some (load_error (message err))
    | page keys next ↦ elim next [
      | zero ↦ some (loaded (inspect_keys keys s acc))
      | suc cursor' ↦ inspect_from fuel (suc cursor') s (inspect_keys keys s acc)
    ]
  ]

  -- InspectAllRooms
  unfoldable pub inspect_all_rooms : ℕ → R.State → Option (Loaded (List DebugRoomInfo))
  inspect_all_rooms fuel s = inspect_from fuel 0 s []
