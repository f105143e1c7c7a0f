-- ===== src/Room/Restore/Start.antt =====
-- internal/room/manager.go: RestoreFromStore as a whole, over the pages of SCAN.
use pokemon_simulator_server.Base.{
  ◌≡◌, refl, ◌∙◌, ap, String, Option, some, none, List, [], ℤ, length, All,
}
use pokemon_simulator_server.Engine.Node.{EngineNode}
use pokemon_simulator_server.Engine.Instance.{EngineInstance}
use pokemon_simulator_server.Room.Env.{Env}
use pokemon_simulator_server.Room.Invariant.{IsServer}
use pokemon_simulator_server.Room.Reassign.{Persisted}
use pokemon_simulator_server.Room.Reassign.Pass.{reassign-IsServer}
use pokemon_simulator_server.Room.Restore.{
  restore_snapshots, restore_listed, restore_stored, restore_from_store,
}
use pokemon_simulator_server.Room.Restore.Rooms.{Fits, restore_snapshots-IsServer}
use pokemon_simulator_server.Store.{RoomSnapshot, Redis, Codec, loaded}
use pokemon_simulator_server.Store.Listing.{read_keys}
use pokemon_simulator_server.Store.Pages.{Pages, concat, list_room_snapshots-Pages}

module _ (env : Env) (R : Redis) (codec : Codec) (after_destroy : String → R.State → R.State)
    (now : ℤ) where
  restore_from_store-Pages :
      (eng : Option EngineInstance) (node_id : ℤ) (pages : List (List String)) (s : R.State)
      (x : Persisted R)
      → Pages R s 0 pages
      → x.store ≡ some s
      → restore_from_store env R codec after_destroy now (length pages) eng node_id x
        ≡ some (
            restore_listed env R codec after_destroy now eng node_id
              (read_keys R codec (concat pages) s [])
              x)
  unfolding restore_from_store restore_stored
  restore_from_store-Pages eng node_id pages s x p stored =
      let listed : restore_stored env R codec after_destroy now (length pages) eng node_id (some s)
            x
          ≡ some (
              restore_listed env R codec after_destroy now eng node_id
                (read_keys R codec (concat pages) s []) x) =
        rw (list_room_snapshots-Pages R codec pages s p, restore_stored) refl in
      ap (λ store. restore_stored env R codec after_destroy now (length pages) eng node_id store x)
        stored
      ∙ listed

  -- Restoring from a store whose scan ends, all of whose snapshots can be read and name one or two
  -- players each, comes to an end without an error, and every room is well formed then, those that
  -- were moved to another node at once among them. Each node is registered under its own index.
  pub restore_from_store_lem :
      (eng : Option EngineInstance) (node_id : ℤ) (pages : List (List String)) (s : R.State)
      (x : Persisted R) (snapshots : List RoomSnapshot)
      → Pages R s 0 pages
      → x.store ≡ some s
      → read_keys R codec (concat pages) s [] ≡ loaded snapshots
      → All Fits snapshots
      → ((e : EngineInstance)
          → eng ≡ some e
          → All (λ (p : ℤ × EngineNode). p.1.pod_index ≡ p.0) e.nodes)
      → IsServer x.server
      → (y : Persisted R) × (restore_from_store env R codec after_destroy now
            (length pages)
            eng
            node_id
            x
          ≡ some (y, none))
        × IsServer y.server
  unfolding restore_listed
  restore_from_store_lem eng node_id pages s x snapshots p stored read fits named ws = (
    (restore_listed env R codec after_destroy now eng node_id (loaded snapshots) x).0,
    restore_from_store-Pages eng node_id pages s x p stored
        ∙ ap (λ listed. some (restore_listed env R codec after_destroy now eng node_id listed x))
            read,
    reassign-IsServer env R codec after_destroy now eng
        (record x { server = restore_snapshots node_id snapshots x.server }) named
        (restore_snapshots-IsServer node_id snapshots x.server fits ws),
  )
