-- ===== src/Store/Laws.antt =====
-- internal/store/redis_store.go: what is read back after a write.
use pokemon_simulator_server.Base.{
  ◌≡◌, refl, sym, ◌∙◌, ap, subst, String, str_append, str_eq, str_eq_iff, true, false, Option, none,
  some, ℤ, pos, int_eq, Bool-cases, inl, inr, if◌then◌else◌, none_ne_some, true_ne_false,
}
use text.Mathlib.TextLemmas.{append_cancel_left, append_inj, append_assoc}
use pokemon_simulator_server.Room.Env.{Marshalled, json, unsupported, parsed}
use pokemon_simulator_server.Store.{
  RoomSnapshot, Reply, value, redis_nil, Redis, Codec, StoreError, loaded, room_key, session_key,
  wrapped, stamped, decode, write_snapshot, save_room_snapshot, read_snapshot, load_room_snapshot,
  load_session_binding,
}

-- Redis answers GET by the last write to the key, as long as the key has not expired.
pub record IsLawful (R : Redis) : Type 0 where
  pub get-set :
      (k v j : String) (s : R.State)
      → (R.set k v s).1 ≡ none
      → R.get j (R.set k v s).0 ≡ (if str_eq k j then value v else R.get j s)
  pub get-del :
      (k j : String) (s : R.State)
      → (R.del k s).1 ≡ none
      → R.get j (R.del k s).0 ≡ (if str_eq k j then redis_nil else R.get j s)

-- Different rooms have different keys.
room_key_inj : (a b : String) → str_eq (room_key a) (room_key b) ≡ str_eq a b
unfolding room_key
room_key_inj a b = elim (Bool-cases (str_eq a b)) [
  | inl q ↦ rw q ((str_eq_iff _ _).1 (ap (str_append "pokemon:room:") ((str_eq_iff a b).0 q)))
  | inr q ↦ elim (Bool-cases (str_eq (room_key a) (room_key b))) [
    | inr r ↦ r ∙ sym q
    | inl r ↦
        absurd (
          cc
            (q, (str_eq_iff a b).1 (append_cancel_left "pokemon:room:" a b ((str_eq_iff _ _).0 r))))
  ]
]

pub session_key_inj : (a b : String) → str_eq (session_key a) (session_key b) ≡ str_eq a b
unfolding session_key
session_key_inj a b = elim (Bool-cases (str_eq a b)) [
  | inl q ↦ rw q ((str_eq_iff _ _).1 (ap (str_append "session:") ((str_eq_iff a b).0 q)))
  | inr q ↦ elim (Bool-cases (str_eq (session_key a) (session_key b))) [
    | inr r ↦ r ∙ sym q
    | inl r ↦
        absurd
          (cc (q, (str_eq_iff a b).1 (append_cancel_left "session:" a b ((str_eq_iff _ _).0 r))))
  ]
]

-- No room's key is a session's: they differ within their first eight letters.
keys_apart : (a b : String) → room_key a ≡ session_key b → ⊥
unfolding room_key session_key
keys_apart a b e =
    let split : str_append "pokemon:" (str_append "room:" a) ≡ str_append "session:" b =
      sym (append_assoc "pokemon:" "room:" a) ∙ e in
    let same : "pokemon:" ≡ "session:" = (append_inj split refl).0 in
    let bad : true ≡ false = sym ((str_eq_iff "pokemon:" "session:").1 same) in
    absurd (true_ne_false bad)

pub room_not_session : (a b : String) → str_eq (room_key a) (session_key b) ≡ false
room_not_session a b = elim (Bool-cases (str_eq (room_key a) (session_key b))) [
  | inr q ↦ q
  | inl q ↦ absurd (keys_apart a b ((str_eq_iff _ _).0 q))
]

pub unwrapped : (what : String) (o : Option String) → wrapped what o ≡ none → o ≡ none
unwrapped what none h = refl
unwrapped what (some err) h = absurd (none_ne_some (sym h))

module _ (R : Redis) (codec : Codec) where
  -- What is loaded from a state that differs from another in one room's key.
  pub load-changed :
      (room_id j : String) (r : Reply) (s t : R.State)
      → str_eq room_id "" ≡ false
      → ((k : String) → R.get k t ≡ (if str_eq (room_key room_id) k then r else R.get k s))
      → load_room_snapshot R codec j t
        ≡ (if str_eq room_id j then read_snapshot R codec r else load_room_snapshot R codec j s)
  unfolding load_room_snapshot
  load-changed room_id j r s t named changed = elim (Bool-cases (str_eq j "")) [
    | inl empty ↦
        let other : str_eq room_id j ≡ false =
          subst (λ k. str_eq room_id k ≡ false) (sym ((str_eq_iff j "").0 empty)) named in
        rw (empty, other) refl
    | inr filled ↦
        rw (filled, changed (room_key j), room_key_inj room_id j)
          (elim (Bool-cases (str_eq room_id j)) [ inl q ↦ rw q refl | inr q ↦ rw q refl ])
  ]

  -- A session's binding does not notice a write to a room's key.
  pub binding-changed :
      (room_id user_id : String) (r : Reply) (s t : R.State)
      → ((k : String) → R.get k t ≡ (if str_eq (room_key room_id) k then r else R.get k s))
      → load_session_binding R user_id t ≡ load_session_binding R user_id s
  unfolding load_session_binding
  binding-changed room_id user_id r s t changed =
      rw (changed (session_key user_id), room_not_session room_id user_id) refl

  write_snapshot-none :
      (room_id : String) (m : Marshalled) (s : R.State)
      → (write_snapshot R codec room_id m s).1 ≡ none
      → (t : String) × ((m ≡ json t)
          × (((R.set (room_key room_id) t s).1 ≡ none)
              × ((write_snapshot R codec room_id m s).0 ≡ (R.set (room_key room_id) t s).0)))
  unfolding write_snapshot
  write_snapshot-none room_id (unsupported err) s h = absurd (none_ne_some (sym h))
  write_snapshot-none room_id (json t) s h = (t, (refl, (unwrapped _ _ h, refl)))

  save-none :
      (snapshot : RoomSnapshot) (now : ℤ) (s : R.State)
      → (save_room_snapshot R codec snapshot now s).1 ≡ none
      → (str_eq snapshot.room_id "" ≡ false)
        × (save_room_snapshot R codec snapshot now s
            ≡ write_snapshot R codec snapshot.room_id (codec.marshal (stamped snapshot now)) s)
  unfolding save_room_snapshot
  save-none snapshot now s h = elim (Bool-cases (str_eq snapshot.room_id "")) [
    | inl q ↦ absurd (none_ne_some (sym (rw q at h)))
    | inr q ↦ (q, rw q refl)
  ]

  -- A snapshot that is saved has an id.
  pub save-named :
      (snapshot : RoomSnapshot) (now : ℤ) (s : R.State)
      → (save_room_snapshot R codec snapshot now s).1 ≡ none
      → str_eq snapshot.room_id "" ≡ false
  save-named snapshot now s h = (save-none snapshot now s h).0

-- json.Unmarshal reads back what json.Marshal wrote of this snapshot.
pub record ReadsBack (codec : Codec) (snapshot : RoomSnapshot) : Type 0 where
  pub reads_back :
      (t : String) → codec.marshal snapshot ≡ json t → codec.unmarshal t ≡ parsed snapshot

-- The snapshot with the present time if it has none.
abbrev pub dated : RoomSnapshot → ℤ → RoomSnapshot
dated snapshot now = record {
  room_id = snapshot.room_id;
  status = snapshot.status;
  node_id = snapshot.node_id;
  server_id = snapshot.server_id;
  players = snapshot.players;
  ready_players = snapshot.ready_players;
  selected_pokemon = snapshot.selected_pokemon;
  updated_at = if int_eq snapshot.updated_at (pos 0) then now else snapshot.updated_at;
}

stamped-dated : (snapshot : RoomSnapshot) (now : ℤ) → stamped snapshot now ≡ dated snapshot now
stamped-dated snapshot now = elim (Bool-cases (int_eq snapshot.updated_at (pos 0))) [
  | inl q ↦ rw q refl
  | inr q ↦ rw q refl
]

-- After a snapshot has been saved without an error, its room is loaded as this snapshot, with the
-- present time if it had none, and every other room and every session's binding is loaded as before; in so far as Redis
-- answers by the last write and the JSON of the snapshot reads back.
pub load-save_room_snapshot :
    (R : Redis) (codec : Codec) (snapshot : RoomSnapshot) (now : ℤ) (s : R.State)
    (j user_id : String)
    → IsLawful R
    → ReadsBack codec (dated snapshot now)
    → (save_room_snapshot R codec snapshot now s).1 ≡ none
    → let t = (save_room_snapshot R codec snapshot now s).0 in
      (load_room_snapshot R codec j t ≡ (
        if str_eq snapshot.room_id j
        then loaded (dated snapshot now)
        else load_room_snapshot R codec j s))
      × (load_session_binding R user_id t ≡ load_session_binding R user_id s)
unfolding read_snapshot decode
load-save_room_snapshot R codec snapshot now s j user_id lawful back h =
    let (named, same) = save-none R codec snapshot now s h in
    let (t, (q, (ok, written))) =
      write_snapshot-none R codec snapshot.room_id _ s
        (sym (ap (λ (x : R.State × Option StoreError). x.1) same) ∙ h) in
    let changed : (k : String)
        → R.get k (save_room_snapshot R codec snapshot now s).0
          ≡ (if str_eq (room_key snapshot.room_id) k then value t else R.get k s) =
      λ k.
        ap (λ (x : R.State × Option StoreError). R.get k x.0) same
        ∙ ap (R.get k) written
        ∙ lawful.get-set (room_key snapshot.room_id) t k s ok in
    let read : read_snapshot R codec (value t) ≡ loaded (dated snapshot now) =
      rw (back.reads_back t (ap codec.marshal (sym (stamped-dated snapshot now)) ∙ q)) refl in
    (
      load-changed R codec snapshot.room_id j (value t) s _ named changed ∙ rw read refl,
      binding-changed R codec snapshot.room_id user_id (value t) s _ changed,
    )
