-- ===== src/Store/Bindings.antt =====
-- internal/store/redis_store.go: what is read back after a room's snapshot is deleted, and after a
-- session's binding is saved or deleted.
use pokemon_simulator_server.Base.{
  ◌≡◌, refl, sym, ◌∙◌, subst, String, str_eq, str_eq_iff, false, none, Bool-cases, inl, inr,
  if◌then◌else◌, none_ne_some,
}
use pokemon_simulator_server.Store.{
  Reply, value, redis_nil, Redis, Codec, not_found, loaded, load_error, room_key, session_key,
  read_snapshot, load_room_snapshot, delete_room_snapshot, save_session_binding, read_binding,
  load_session_binding,
}
use pokemon_simulator_server.Store.Laws.{
  IsLawful, unwrapped, load-changed, binding-changed, session_key_inj, room_not_session,
}

-- Deleting a room's snapshot without an error: the room is not found from then on, every other room and
-- every session's binding is loaded as before; in so far as Redis answers by the last write.
pub load-delete_room_snapshot :
    (R : Redis) (codec : Codec) (room_id : String) (s : R.State) (j user_id : String)
    → IsLawful R
    → (delete_room_snapshot R room_id s).1 ≡ none
    → let t = (delete_room_snapshot R room_id s).0 in
      (load_room_snapshot R codec j t
        ≡ (if str_eq room_id j then load_error not_found else load_room_snapshot R codec j s))
      × (load_session_binding R user_id t ≡ load_session_binding R user_id s)
unfolding delete_room_snapshot read_snapshot
load-delete_room_snapshot R codec room_id s j user_id lawful h =
    elim (Bool-cases (str_eq room_id "")) [
      | inl q ↦ absurd (none_ne_some (sym (rw q at h)))
      | inr q ↦
          let ok = unwrapped _ _ (rw q at h) in
          rw q (
            load-changed R codec room_id j redis_nil s _ q
                (λ k. lawful.get-del (room_key room_id) k s ok),
            binding-changed R codec room_id user_id redis_nil s _
                (λ k. lawful.get-del (room_key room_id) k s ok),
          )
    ]

module _ (R : Redis) (codec : Codec) where
  -- What is loaded from a state that differs from another in one session's key.
  load-bound :
      (user_id u : String) (r : Reply) (s t : R.State)
      → str_eq user_id "" ≡ false
      → ((k : String) → R.get k t ≡ (if str_eq (session_key user_id) k then r else R.get k s))
      → load_session_binding R u t
        ≡ (if str_eq user_id u then read_binding R r else load_session_binding R u s)
  unfolding load_session_binding
  load-bound user_id u r s t named changed = elim (Bool-cases (str_eq u "")) [
    | inl empty ↦
        let other : str_eq user_id u ≡ false =
          subst (λ k. str_eq user_id k ≡ false) (sym ((str_eq_iff u "").0 empty)) named in
        rw (empty, other) refl
    | inr filled ↦
        rw (filled, changed (session_key u), session_key_inj user_id u)
          (elim (Bool-cases (str_eq user_id u)) [ inl q ↦ rw q refl | inr q ↦ rw q refl ])
  ]

  flipped : (a b : String) → str_eq a b ≡ str_eq b a
  flipped a b = elim (Bool-cases (str_eq b a)) [
    | inl q ↦ rw q ((str_eq_iff a b).1 (sym ((str_eq_iff b a).0 q)))
    | inr q ↦ elim (Bool-cases (str_eq a b)) [
      | inr r ↦ r ∙ sym q
      | inl r ↦ absurd (cc (q, (str_eq_iff b a).1 (sym ((str_eq_iff a b).0 r))))
    ]
  ]

  -- A room's snapshot does not notice a write to a session's key.
  room-bound :
      (user_id j : String) (r : Reply) (s t : R.State)
      → ((k : String) → R.get k t ≡ (if str_eq (session_key user_id) k then r else R.get k s))
      → load_room_snapshot R codec j t ≡ load_room_snapshot R codec j s
  unfolding load_room_snapshot
  room-bound user_id j r s t changed =
      rw
        (
          changed (room_key j),
          flipped (session_key user_id) (room_key j),
          room_not_session j user_id,
        )
        refl

-- After a binding has been saved without an error, the player's room is loaded as this room, and every
-- other player's binding and every snapshot is loaded as before; in so far as Redis answers by the last
-- write.
pub load-save_session_binding :
    (R : Redis) (codec : Codec) (user_id room_id : String) (s : R.State) (u j : String)
    → IsLawful R
    → (save_session_binding R user_id room_id s).1 ≡ none
    → let t = (save_session_binding R user_id room_id s).0 in
      (load_session_binding R u t
        ≡ (if str_eq user_id u then loaded room_id else load_session_binding R u s))
      × (load_room_snapshot R codec j t ≡ load_room_snapshot R codec j s)
unfolding save_session_binding read_binding
load-save_session_binding R codec user_id room_id s u j lawful h =
    elim (Bool-cases (str_eq user_id "")) [
      | inl q ↦ absurd (none_ne_some (sym (rw q at h)))
      | inr q ↦ elim (Bool-cases (str_eq room_id "")) [
        | inl r ↦ absurd (none_ne_some (sym (rw (q, r) at h)))
        | inr r ↦
            let ok = unwrapped _ _ (rw (q, r) at h) in
            rw (q, r)
              (
                load-bound R codec user_id u (value room_id) s _ q
                    (λ k. lawful.get-set (session_key user_id) room_id k s ok),
                room-bound R codec user_id j (value room_id) s _
                    (λ k. lawful.get-set (session_key user_id) room_id k s ok),
              )
      ]
    ]
