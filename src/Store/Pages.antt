-- ===== src/Store/Pages.antt =====
-- internal/store/redis_store.go: ListRoomSnapshots reads the keys of all pages, one after the other.
use pokemon_simulator_server.Base.{
  ℕ, suc, ◌≡◌, ◌⊎◌, refl, sym, ◌∙◌, ap, String, some, List, [], ◌∷◌, ◌++◌, length, inl, inr,
}
use pokemon_simulator_server.Store.{
  RoomSnapshot, page, Redis, Codec, StoreError, Loaded, loaded, load_error,
}
use pokemon_simulator_server.Store.Listing.{add_reply, read_keys, list_from, list_room_snapshots}

-- The pages of a scan from a cursor on: it ends with the first page whose next cursor is zero.
pub data Pages (R : Redis) (s : R.State) : ℕ → List (List String) → Type 0 where
  last :
      {cursor : ℕ} {keys : List String}
      → R.scan cursor s ≡ page keys 0
      → Pages R s cursor (keys ∷ [])
  more :
      {cursor next : ℕ} {keys : List String} {rest : List (List String)}
      → R.scan cursor s ≡ page keys (suc next)
      → Pages R s (suc next) rest
      → Pages R s cursor (keys ∷ rest)

abbrev pub concat : List (List String) → List String
concat [] = []
concat (keys ∷ rest) = keys ++ concat rest

module _ (R : Redis) (codec : Codec) where
  Loaded-cases :
      {A : Type 0} (o : Loaded A)
      → ((a : A) × (o ≡ loaded a)) ⊎ ((err : StoreError) × (o ≡ load_error err))
  Loaded-cases (loaded a) = inl (a, refl)
  Loaded-cases (load_error err) = inr (err, refl)

  read_keys_error :
      (keys others : List String) (s : R.State) (acc : List RoomSnapshot) {err : StoreError}
      → read_keys R codec keys s acc ≡ load_error err
      → read_keys R codec (keys ++ others) s acc ≡ load_error err
  unfolding read_keys
  read_keys_error [] others s acc h = absurd (cc h)
  read_keys_error (key ∷ keys) others s acc h =
      elim (Loaded-cases (add_reply R codec key (R.get key s) acc)) [
        | inl (acc', q) ↦
            rw (q, read_keys) (read_keys_error keys others s acc' (rw (q, read_keys) at h))
        | inr (err, q) ↦ rw (q, read_keys) (rw (q, read_keys) at h)
      ]

  read_keys_loaded :
      (keys others : List String) (s : R.State) (acc : List RoomSnapshot) {acc' : List RoomSnapshot}
      → read_keys R codec keys s acc ≡ loaded acc'
      → read_keys R codec (keys ++ others) s acc ≡ read_keys R codec others s acc'
  unfolding read_keys
  read_keys_loaded [] others s acc h = ap (read_keys R codec others s) (cc h)
  read_keys_loaded (key ∷ keys) others s acc h =
      elim (Loaded-cases (add_reply R codec key (R.get key s) acc)) [
        | inl (next, q) ↦
            rw (q, read_keys) (read_keys_loaded keys others s next (rw (q, read_keys) at h))
        | inr (err, q) ↦ absurd (cc (rw (q, read_keys) at h))
      ]

  list_from-Pages :
      (cursor : ℕ) (pages : List (List String)) (s : R.State) (acc : List RoomSnapshot)
      → Pages R s cursor pages
      → list_from R codec (length pages) cursor s acc
        ≡ some (read_keys R codec (concat pages) s acc)
  unfolding list_from read_keys
  list_from-Pages cursor [] s acc p = elim p [ ]
  list_from-Pages cursor (keys ∷ []) s acc (last q) =
      elim (Loaded-cases (read_keys R codec keys s acc)) [
        | inl (acc', r) ↦ rw (q, r, list_from) (ap some (sym (read_keys_loaded keys [] s acc r)))
        | inr (err, r) ↦ rw (q, r, list_from) (ap some (sym (read_keys_error keys [] s acc r)))
      ]
  list_from-Pages cursor (keys ∷ rest) s acc (more {next = next} q p) =
      elim (Loaded-cases (read_keys R codec keys s acc)) [
        | inl (acc', r) ↦
            rw (q, r, list_from)
              (list_from-Pages (suc next) rest s acc' p
                ∙ ap some (sym (read_keys_loaded keys (concat rest) s acc r)))
        | inr (err, r) ↦
            rw (q, r, list_from) (ap some (sym (read_keys_error keys (concat rest) s acc r)))
      ]

  -- A scan that ends is read to its end: however Redis cuts the keys into pages, the result is that of
  -- reading all of these keys in turn, up to the first error.
  pub list_room_snapshots-Pages :
      (pages : List (List String)) (s : R.State)
      → Pages R s 0 pages
      → list_room_snapshots R codec (length pages) s ≡ some (read_keys R codec (concat pages) s [])
  unfolding list_room_snapshots
  list_room_snapshots-Pages pages s p = list_from-Pages 0 pages s [] p
