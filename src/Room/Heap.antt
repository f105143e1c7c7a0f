-- ===== src/Room/Heap.antt =====
-- The sessions that the server's pointers name: RoomManager.AllSessions, GameRoom.Sessions and the
-- connection handlers of internal/handler share them, so a session is a cell of a heap.
pub mod Sent
use pokemon_simulator_server.Base.{
  ℕ, zero, suc, ◌≡◌, refl, ◌∙◌, ap, Bool, List, [], ◌∷◌, nat_eq, nat_eq_iff, if◌then◌else◌,
  Bool-cases, inl, inr, count_by,
}
use pokemon_simulator_server.Protocol.{GameResponse}
use pokemon_simulator_server.Room.Session.{
  Session, send_response, send_or_drop, room_id-send_response, room_id-send_or_drop,
  player-send_response, player-send_or_drop,
}

pub record Heap : Type 0 where
  pub cell : ℕ → Session
  pub next : ℕ

abbrev pub update : Heap → ℕ → Session → Heap
update h p s = record h { cell = λ q. if nat_eq p q then s else h.cell q }

-- s.SendResponse(...)
unfoldable pub reply : (GameResponse → Bool) → ℕ → GameResponse → Heap → Heap
reply marshals p m h = update h p (send_response marshals (h.cell p) m)

-- The loop of BroadcastToRoom.
unfoldable pub send_all : List ℕ → GameResponse → Heap → Heap
send_all [] m h = h
send_all (p ∷ ps) m h = send_all ps m (update h p (send_or_drop (h.cell p) m))

-- r.BroadcastToRoom(...), for the sessions of the room
unfoldable pub broadcast : (GameResponse → Bool) → List ℕ → GameResponse → Heap → Heap
unfolding send_all
broadcast marshals ps m h = if marshals m then send_all ps m h else h

abbrev pub repeat {ℓ} : {A : Type ℓ} → ℕ → (A → A) → A → A
repeat zero f a = a
repeat (suc n) f a = repeat n f (f a)

-- A broadcast tries each session as often as the room lists it, and touches no other session.
pub send_all-count :
    (ps : List ℕ) (m : GameResponse) (h : Heap) (q : ℕ)
    → (send_all ps m h).cell q
      ≡ repeat (count_by (λ p. nat_eq p q) ps) (λ s. send_or_drop s m) (h.cell q)
unfolding send_all count_by
send_all-count [] m h q = refl
send_all-count (p ∷ ps) m h q = elim (Bool-cases (nat_eq p q)) [
  | inl hit ↦ send_all-count ps m _ q ∙ rw (hit, (nat_eq_iff p q).0 hit) refl
  | inr miss ↦ send_all-count ps m _ q ∙ rw miss refl
]

-- What a field of a session is, when no sending changes it.
module _ {ℓ} {A : Type ℓ} (field : Session → A)
    (by_response : (marshals : GameResponse → Bool) (s : Session) (m : GameResponse)
      → field (send_response marshals s m) ≡ field s)
    (by_broadcast : (s : Session) (m : GameResponse) → field (send_or_drop s m) ≡ field s) where
  pub field-update :
      (h : Heap) (p : ℕ) (s : Session) (q : ℕ)
      → field s ≡ field (h.cell p)
      → field ((update h p s).cell q) ≡ field (h.cell q)
  field-update h p s q e = elim (Bool-cases (nat_eq p q)) [
    | inl hit ↦ rw hit (e ∙ ap (λ k. field (h.cell k)) ((nat_eq_iff p q).0 hit))
    | inr miss ↦ rw miss refl
  ]

  pub field-reply :
      (marshals : GameResponse → Bool) (p : ℕ) (m : GameResponse) (h : Heap) (q : ℕ)
      → field ((reply marshals p m h).cell q) ≡ field (h.cell q)
  unfolding reply
  field-reply marshals p m h q = field-update h p _ q (by_response marshals (h.cell p) m)

  field-send_all :
      (ps : List ℕ) (m : GameResponse) (h : Heap) (q : ℕ)
      → field ((send_all ps m h).cell q) ≡ field (h.cell q)
  unfolding send_all
  field-send_all [] m h q = refl
  field-send_all (p ∷ ps) m h q =
      field-send_all ps m _ q ∙ field-update h p _ q (by_broadcast (h.cell p) m)

  pub field-broadcast :
      (marshals : GameResponse → Bool) (ps : List ℕ) (m : GameResponse) (h : Heap) (q : ℕ)
      → field ((broadcast marshals ps m h).cell q) ≡ field (h.cell q)
  unfolding broadcast
  field-broadcast marshals ps m h q = elim (Bool-cases (marshals m)) [
    | inl e ↦ rw e (field-send_all ps m h q)
    | inr e ↦ rw e refl
  ]

next-send_all : (ps : List ℕ) (m : GameResponse) (h : Heap) → (send_all ps m h).next ≡ h.next
unfolding send_all
next-send_all [] m h = refl
next-send_all (p ∷ ps) m h = next-send_all ps m (update h p (send_or_drop (h.cell p) m))

-- Sending allocates no session.
pub next-reply :
    (marshals : GameResponse → Bool) (p : ℕ) (m : GameResponse) (h : Heap)
    → (reply marshals p m h).next ≡ h.next
unfolding reply
next-reply marshals p m h = refl

pub next-broadcast :
    (marshals : GameResponse → Bool) (ps : List ℕ) (m : GameResponse) (h : Heap)
    → (broadcast marshals ps m h).next ≡ h.next
unfolding broadcast
next-broadcast marshals ps m h = elim (Bool-cases (marshals m)) [
  | inl e ↦ rw e (next-send_all ps m h)
  | inr e ↦ rw e refl
]

-- Neither the room nor the player of any session changes when messages are sent.
pub room_id-reply :
    (marshals : GameResponse → Bool) (p : ℕ) (m : GameResponse) (h : Heap) (q : ℕ)
    → ((reply marshals p m h).cell q).room_id ≡ (h.cell q).room_id
room_id-reply = field-reply (λ s. s.room_id) room_id-send_response room_id-send_or_drop

pub room_id-broadcast :
    (marshals : GameResponse → Bool) (ps : List ℕ) (m : GameResponse) (h : Heap) (q : ℕ)
    → ((broadcast marshals ps m h).cell q).room_id ≡ (h.cell q).room_id
room_id-broadcast = field-broadcast (λ s. s.room_id) room_id-send_response room_id-send_or_drop

pub player-reply :
    (marshals : GameResponse → Bool) (p : ℕ) (m : GameResponse) (h : Heap) (q : ℕ)
    → ((reply marshals p m h).cell q).player ≡ (h.cell q).player
player-reply = field-reply (λ s. s.player) player-send_response player-send_or_drop

pub player-broadcast :
    (marshals : GameResponse → Bool) (ps : List ℕ) (m : GameResponse) (h : Heap) (q : ℕ)
    → ((broadcast marshals ps m h).cell q).player ≡ (h.cell q).player
player-broadcast = field-broadcast (λ s. s.player) player-send_response player-send_or_drop
