-- ===== src/Room/Heap/Sent.antt =====
-- internal/room/session.go and manager.go: a session before and after messages have been sent.
use pokemon_simulator_server.Base.{
  ℕ, ◌≡◌, refl, sym, ◌∙◌, ap, subst, Bool, List, [], ◌∷◌, ◌++◌, nat_eq, nat_eq_iff, Bool-cases, inl,
  inr,
}
use mathlib.Core.List.{append_assoc, append-nil}
use pokemon_simulator_server.Protocol.{GameResponse}
use pokemon_simulator_server.Room.Session.{
  Session, history, has_space, enqueue, receive, send_blocking, send_response, send_or_drop,
  history-enqueue, history-receive,
}
use pokemon_simulator_server.Room.Heap.{Heap, update, reply, send_all, broadcast}

-- Between two states of a session, messages have been put on its channel or received from it, behind
-- those of before, and nothing else has happened.
pub record Sent (s t : Session) : Type 0 where
  pub player : t.player ≡ s.player
  pub room_id : t.room_id ≡ s.room_id
  pub conn : t.conn ≡ s.conn
  pub selected_pokemon : t.selected_pokemon ≡ s.selected_pokemon
  pub messages : List GameResponse
  pub history_grown : history t ≡ history s ++ messages

pub Sent-refl : (s : Session) → Sent s s
Sent-refl s = record {
  player = refl;
  room_id = refl;
  conn = refl;
  selected_pokemon = refl;
  messages = [];
  history_grown = sym (append-nil (history s));
}

pub Sent-trans : {s t u : Session} → Sent s t → Sent t u → Sent s u
Sent-trans {s} a b = record {
  player = b.player ∙ a.player;
  room_id = b.room_id ∙ a.room_id;
  conn = b.conn ∙ a.conn;
  selected_pokemon = b.selected_pokemon ∙ a.selected_pokemon;
  messages = a.messages ++ b.messages;
  history_grown =
      b.history_grown
      ∙ ap (λ l. l ++ b.messages) a.history_grown
      ∙ append_assoc (history s) a.messages b.messages;
}

enqueue-Sent : (s : Session) (m : GameResponse) → Sent s (enqueue s m)
enqueue-Sent s m = record {
  player = refl;
  room_id = refl;
  conn = refl;
  selected_pokemon = refl;
  messages = m ∷ [];
  history_grown = history-enqueue s m;
}

receive-Sent : (s : Session) → Sent s (receive s)
receive-Sent s = record {
  player = refl;
  room_id = refl;
  conn = refl;
  selected_pokemon = refl;
  messages = [];
  history_grown = history-receive s ∙ sym (append-nil (history s));
}

send_response-Sent :
    (marshals : GameResponse → Bool) (s : Session) (m : GameResponse)
    → Sent s (send_response marshals s m)
unfolding send_response send_blocking
send_response-Sent marshals s m = elim (Bool-cases (marshals m)) [
  | inr e ↦ rw e (Sent-refl s)
  | inl e ↦ elim (Bool-cases (has_space s)) [
    | inl q ↦ rw (e, q) (enqueue-Sent s m)
    | inr q ↦ rw (e, q) (Sent-trans (receive-Sent s) (enqueue-Sent (receive s) m))
  ]
]

send_or_drop-Sent : (s : Session) (m : GameResponse) → Sent s (send_or_drop s m)
unfolding send_or_drop
send_or_drop-Sent s m = elim (Bool-cases (has_space s)) [
  | inl q ↦ rw q (enqueue-Sent s m)
  | inr q ↦ rw q (Sent-refl s)
]

update-Sent :
    (h : Heap) (p : ℕ) (s : Session)
    → Sent (h.cell p) s
    → (q : ℕ) → Sent (h.cell q) ((update h p s).cell q)
update-Sent h p s sent q = elim (Bool-cases (nat_eq p q)) [
  | inl hit ↦ rw hit (subst (λ k. Sent (h.cell k) s) ((nat_eq_iff p q).0 hit) sent)
  | inr miss ↦ rw miss (Sent-refl (h.cell q))
]

-- Every session before and after a reply and a broadcast.
pub reply-Sent :
    (marshals : GameResponse → Bool) (p : ℕ) (m : GameResponse) (h : Heap) (q : ℕ)
    → Sent (h.cell q) ((reply marshals p m h).cell q)
unfolding reply
reply-Sent marshals p m h q = update-Sent h p _ (send_response-Sent marshals (h.cell p) m) q

send_all-Sent :
    (ps : List ℕ) (m : GameResponse) (h : Heap) (q : ℕ) → Sent (h.cell q) ((send_all ps m h).cell q)
unfolding send_all
send_all-Sent [] m h q = Sent-refl (h.cell q)
send_all-Sent (p ∷ ps) m h q =
    Sent-trans (update-Sent h p _ (send_or_drop-Sent (h.cell p) m) q) (send_all-Sent ps m _ q)

pub broadcast-Sent :
    (marshals : GameResponse → Bool) (ps : List ℕ) (m : GameResponse) (h : Heap) (q : ℕ)
    → Sent (h.cell q) ((broadcast marshals ps m h).cell q)
unfolding broadcast
broadcast-Sent marshals ps m h q = elim (Bool-cases (marshals m)) [
  | inl e ↦ rw e (send_all-Sent ps m h q)
  | inr e ↦ rw e (Sent-refl (h.cell q))
]
