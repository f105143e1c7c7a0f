-- ===== src/Room/Session.antt =====
-- internal/room/session.go: Session, its outgoing channel, SendResponse and WritePump.
use pokemon_simulator_server.Base.{
  ℕ, ◌≤◌, ◌<◌, ◌≡◌, refl, sym, ap, ◌∙◌, String, Bool, true, false, Option, none, some, List, [],
  ◌∷◌, ◌++◌, arith, ltb, ltb→lt, nat_eq, length, length-append, if◌then◌else◌, Bool-cases, inl, inr,
}
use mathlib.Core.List.{append_assoc}
use pokemon_simulator_server.Protocol.{Player, JsonObject, GameResponse}

-- make(chan []byte, 256)
abbrev pub send_capacity : ℕ
send_capacity = 256

pub record Session : Type 0 where
  pub player : Player
  pub room_id : String
  pub conn : Option ℕ
  pub send : List GameResponse  -- what the channel holds, oldest first
  pub taken : List GameResponse  -- what was received from the channel, oldest first (history)
  pub selected_pokemon : List JsonObject

-- NewSession
abbrev pub new_session : Player → Option ℕ → Session
new_session p conn = record {
  player = p;
  room_id = "";
  conn = conn;
  send = [];
  taken = [];
  selected_pokemon = [];
}

abbrev pub oldest : List GameResponse → List GameResponse
oldest [] = []
oldest (m ∷ rest) = m ∷ []

abbrev pub behind : List GameResponse → List GameResponse
behind [] = []
behind (m ∷ rest) = rest

-- One receive from the channel: the oldest message, if there is one.
abbrev pub receive : Session → Session
receive s = record s { send = behind s.send; taken = s.taken ++ oldest s.send }

abbrev pub has_space : Session → Bool
has_space s = ltb (length s.send) send_capacity

abbrev pub enqueue : Session → GameResponse → Session
enqueue s m = record s { send = s.send ++ (m ∷ []) }

-- s.Send <- bytes: a sender that finds the channel full waits for one receive, which is taken to come.
unfoldable pub send_blocking : Session → GameResponse → Session
send_blocking s m = if has_space s then enqueue s m else enqueue (receive s) m

-- select { case s.Send <- bytes: default: }: a full channel drops the message.
unfoldable pub send_or_drop : Session → GameResponse → Session
send_or_drop s m = if has_space s then enqueue s m else s

-- SendResponse, where `marshals` tells whether json.Marshal encodes the response.
unfoldable pub send_response : (GameResponse → Bool) → Session → GameResponse → Session
unfolding send_blocking
send_response marshals s m = if marshals m then send_blocking s m else s

-- All that was ever put on the channel, oldest first.
abbrev pub history : Session → List GameResponse
history s = s.taken ++ s.send

pub data PumpResult : Type 0 where
  wrote lost stopped idle : PumpResult

unfoldable pub same_conn : Option ℕ → ℕ → Bool
same_conn none c = false
same_conn (some d) c = nat_eq d c

-- One turn of WritePump's loop on the connection `current` that it started with, where `written`
-- tells whether WriteMessage succeeds. The message is received before the test on s.Conn.
unfoldable pub write_pump : Session → ℕ → Bool → Session × PumpResult
unfolding same_conn
write_pump s current written = elim s.send [
  | [] ↦ (s, idle)
  | m ∷ rest ↦
      (receive s, if same_conn s.conn current then (if written then wrote else stopped) else lost)
]

-- The channel holds no more than its capacity.
abbrev pub IsBounded : Session → Type 0
IsBounded s = length s.send ≤ 256

pub history-enqueue :
    (s : Session) (m : GameResponse) → history (enqueue s m) ≡ history s ++ (m ∷ [])
history-enqueue s m = sym (append_assoc s.taken s.send (m ∷ []))

oldest-behind : (ms : List GameResponse) → oldest ms ++ behind ms ≡ ms
oldest-behind [] = refl
oldest-behind (m ∷ rest) = refl

pub history-receive : (s : Session) → history (receive s) ≡ history s
history-receive s =
    append_assoc s.taken (oldest s.send) (behind s.send)
    ∙ ap (λ l. s.taken ++ l) (oldest-behind s.send)

length-behind : (ms : List GameResponse) → length ms ≤ 256 → length (behind ms) < 256
length-behind [] h = omega arith
length-behind (m ∷ rest) h = omega arith

length-enqueue :
    (ms : List GameResponse) (m : GameResponse) → length ms < 256 → length (ms ++ m ∷ []) ≤ 256
length-enqueue ms m h = omega (arith, length-append ms (m ∷ []))

-- A direct response that json.Marshal encodes comes right behind all that was put on the channel before
-- it, which is within its capacity. A full channel waits for the other end to receive one message first, and a channel with space
-- waits for nothing. The channel stays within its capacity; and the player, room, connection and team of
-- the session are as they were.
pub send_response_lem :
    (marshals : GameResponse → Bool) (s : Session) (m : GameResponse)
    → IsBounded s
    → marshals m ≡ true
    → let t = send_response marshals s m in
      (history t ≡ history s ++ (m ∷ []))
      × (t.taken ≡ (if ltb (length s.send) 256 then s.taken else s.taken ++ oldest s.send))
      × IsBounded t
      × (t.room_id ≡ s.room_id)
      × (t.player ≡ s.player)
      × (t.conn ≡ s.conn)
      × (t.selected_pokemon ≡ s.selected_pokemon)
unfolding send_response
send_response_lem marshals s m b e = elim (Bool-cases (has_space s)) [
  | inl q ↦
      rw (e, q)
        (history-enqueue s m, refl, length-enqueue s.send m (ltb→lt _ _ q), refl, refl, refl, refl)
  | inr q ↦
      rw (e, q)
        (
          history-enqueue (receive s) m ∙ ap (λ h. h ++ (m ∷ [])) (history-receive s),
          refl,
          length-enqueue (behind s.send) m (length-behind s.send b),
          refl,
          refl,
          refl,
          refl,
        )
]

-- A broadcast never waits: it is the next message if the channel has space and is dropped if not.
-- It changes nothing else, takes nothing out of the channel, and keeps it within its capacity.
pub send_or_drop_lem :
    (s : Session) (m : GameResponse)
    → IsBounded s
    → let t = send_or_drop s m in
      (history t ≡ (if ltb (length s.send) 256 then history s ++ (m ∷ []) else history s))
      × IsBounded t
      × (t.taken ≡ s.taken)
      × (t.room_id ≡ s.room_id)
unfolding send_or_drop
send_or_drop_lem s m b = elim (Bool-cases (has_space s)) [
  | inl q ↦ rw q (history-enqueue s m, length-enqueue s.send m (ltb→lt _ _ q), refl, refl)
  | inr q ↦ rw q (refl, b, refl, refl)
]

-- The fields that no sending changes.
pub room_id-send_response :
    (marshals : GameResponse → Bool) (s : Session) (m : GameResponse)
    → (send_response marshals s m).room_id ≡ s.room_id
unfolding send_response
room_id-send_response marshals s m = ground arith

pub room_id-send_or_drop : (s : Session) (m : GameResponse) → (send_or_drop s m).room_id ≡ s.room_id
unfolding send_or_drop
room_id-send_or_drop s m = ground arith

pub player-send_response :
    (marshals : GameResponse → Bool) (s : Session) (m : GameResponse)
    → (send_response marshals s m).player ≡ s.player
unfolding send_response
player-send_response marshals s m = ground arith

pub player-send_or_drop : (s : Session) (m : GameResponse) → (send_or_drop s m).player ≡ s.player
unfolding send_or_drop
player-send_or_drop s m = ground arith
