-- ===== src/Room/Restore/Named.antt =====
-- internal/room/manager.go: the players that a snapshot names, and those that restoreRoomSnapshot lists.
use pokemon_simulator_server.Base.{
  ◌≡◌, ◌⊎◌, refl, sym, subst, String, str_eq, str_eq_iff, string_eq, true, false, List, [], ◌∷◌,
  Memᴰ, Map, keys, lookup, insert, lookup-insert, is_some, All, All-imp, Memᴰ-keys, Option-cases,
  All-Memᴰ, All-keys-lookup, if◌then◌else◌, Bool-cases, inl, inr,
}
use pokemon_simulator_server.Room.GameRoom.{GameRoom}
use pokemon_simulator_server.Room.Manager.{Server}
use pokemon_simulator_server.Room.Restore.{
  add_player_ids, player_ids, restore_player, restore_players,
}
use pokemon_simulator_server.Store.{RoomSnapshot}

abbrev pub Listed {ℓ} : {A : Type ℓ} → Map String A → String → Type 0
Listed m k = is_some (lookup k m) ≡ true

-- Of an entry that was put in, and of the others.
Listed-insert {ℓ} :
    {A : Type ℓ} (i : String) (a : A) (m : Map String A) (k : String)
    → Listed m k
    → Listed (insert i a m) k
Listed-insert i a m k h = elim (Bool-cases (str_eq i k)) [
  | inl q ↦ rw (lookup-insert i k a m, q) refl
  | inr q ↦ rw (lookup-insert i k a m, q) h
]

Listed-insert_self {ℓ} :
    {A : Type ℓ} (i : String) (a : A) (m : Map String A) → Listed (insert i a m) i
Listed-insert_self i a m = rw (lookup-insert i i a m, (str_eq_iff i i).1 refl) refl

Listed-insert_only {ℓ} :
    {A : Type ℓ} (i : String) (a : A) (m : Map String A) (k : String)
    → Listed (insert i a m) k
    → (k ≡ i) ⊎ Listed m k
Listed-insert_only i a m k h = elim (Bool-cases (str_eq i k)) [
  | inl q ↦ inl (sym ((str_eq_iff i k).0 q))
  | inr q ↦ inr (rw (lookup-insert i k a m, q) at h)
]

pub Listed-keys {ℓ} : {A : Type ℓ} (m : Map String A) (k : String) → Memᴰ k (keys m) → Listed m k
Listed-keys m k there =
    All-Memᴰ (Listed m) (keys m) (All-imp (keys m) (λ j (a, q). rw q refl) (All-keys-lookup m))
      there

pub keys-Listed {ℓ} : {A : Type ℓ} (m : Map String A) (k : String) → Listed m k → Memᴰ k (keys m)
keys-Listed m k h = elim (Option-cases (lookup k m)) [
  | inl q ↦ absurd (cc (rw q at h))
  | inr (a, q) ↦ Memᴰ-keys m k q
]

kept :
    (rest : List String) (ids : Map {0, 0} String Unit) (k : String)
    → Listed ids k
    → Listed (add_player_ids rest ids) k
unfolding add_player_ids
kept [] ids k h = h
kept (id ∷ rest) ids k h = elim (Bool-cases (str_eq id "")) [
  | inl q ↦ rw q (kept rest ids k h)
  | inr q ↦ rw q (kept rest (insert id tt ids) k (Listed-insert id tt ids k h))
]

-- An id is empty or listed.
abbrev pub Present {ℓ} : {A : Type ℓ} → Map String A → String → Type 0
Present m k = (k ≡ "") ⊎ Listed m k

kept-Present :
    (rest : List String) (ids : Map {0, 0} String Unit) (k : String)
    → Present ids k
    → Present (add_player_ids rest ids) k
kept-Present rest ids k (inl empty) = inl empty
kept-Present rest ids k (inr h) = inr (kept rest ids k h)

added :
    (rest : List String) (ids : Map {0, 0} String Unit)
    → All (Present (add_player_ids rest ids)) rest
unfolding add_player_ids
added [] ids = tt
added (id ∷ rest) ids = (
  elim (Bool-cases (str_eq id "")) [
    | inl q ↦ inl ((str_eq_iff id "").0 q)
    | inr q ↦ inr (rw q (kept rest (insert id tt ids) id (Listed-insert_self id tt ids)))
  ],
  added rest (if str_eq id "" then ids else insert id tt ids),
)

only :
    (rest : List String) (ids : Map {0, 0} String Unit) (k : String)
    → Listed (add_player_ids rest ids) k
    → ((str_eq k "" ≡ false) × Memᴰ k rest) ⊎ Listed ids k
unfolding add_player_ids
only [] ids k h = inr h
only (id ∷ rest) ids k h = elim (Bool-cases (str_eq id "")) [
  | inl q ↦ elim (only rest ids k (rw q at h)) [
    | inl (named, there) ↦ inl (named, Memᴰ.tail there)
    | inr before ↦ inr before
  ]
  | inr q ↦ elim (only rest (insert id tt ids) k (rw q at h)) [
    | inl (named, there) ↦ inl (named, Memᴰ.tail there)
    | inr f ↦ elim (Listed-insert_only id tt ids k f) [
      | inl same ↦ inl (subst (λ j. str_eq j "" ≡ false) (sym same) q, Memᴰ.head same)
      | inr before ↦ inr before
    ]
  ]
]

-- A snapshot names a player in one of its fields.
abbrev pub Names : RoomSnapshot → String → Type 0
Names snapshot k =
    Memᴰ k snapshot.players
    ⊎ (Memᴰ k (keys snapshot.ready_players) ⊎ Memᴰ k (keys snapshot.selected_pokemon))

module _ (snapshot : RoomSnapshot) where
  abbrev first : Map {0, 0} String Unit
  first = add_player_ids snapshot.players []

  abbrev second : Map {0, 0} String Unit
  second = add_player_ids (keys snapshot.ready_players) first

  -- The ids that are collected are those that are named and not empty.
  pub player_ids-Present :
      All (Present (player_ids snapshot)) snapshot.players
      × All (Present (player_ids snapshot)) (keys snapshot.ready_players)
      × All (Present (player_ids snapshot)) (keys snapshot.selected_pokemon)
  unfolding player_ids
  player_ids-Present =
      let third : (k : String) → Present second k → Present (player_ids snapshot) k =
        kept-Present (keys snapshot.selected_pokemon) second in
      (
        All-imp snapshot.players
            (λ k h. third k (kept-Present (keys snapshot.ready_players) first k h))
            (added snapshot.players []),
        All-imp (keys snapshot.ready_players) third (added (keys snapshot.ready_players) first),
        added (keys snapshot.selected_pokemon) second,
      )

  pub player_ids-Names :
      (k : String) → Listed (player_ids snapshot) k → (str_eq k "" ≡ false) × Names snapshot k
  unfolding player_ids lookup
  player_ids-Names k h = elim (only (keys snapshot.selected_pokemon) second k h) [
    | inl (named, there) ↦ (named, inr (inr there))
    | inr f ↦ elim (only (keys snapshot.ready_players) first k f) [
      | inl (named, there) ↦ (named, inr (inl there))
      | inr g ↦ elim (only snapshot.players [] k g) [
        | inl (named, there) ↦ (named, inl there)
        | inr nothing ↦ absurd (cc nothing)
      ]
    ]
  ]

  -- Only the given ids are listed.
  pub restore_players-only :
      (ids : List String) (x : GameRoom × Server) (k : String)
      → Listed (restore_players snapshot ids x).0.sessions k
      → Memᴰ k ids ⊎ Listed x.0.sessions k
  unfolding restore_players restore_player
  restore_players-only [] x k h = inr h
  restore_players-only (id ∷ ids) (r, v) k h =
      elim (restore_players-only ids (restore_player snapshot id (r, v)) k h) [
        | inl there ↦ inl (Memᴰ.tail there)
        | inr f ↦ elim (Listed-insert_only id v.heap.next r.sessions k f) [
          | inl same ↦ inl (Memᴰ.head same)
          | inr before ↦ inr before
        ]
      ]
