-- ===== src/Examples/Handlers.antt =====
-- What the theorems of Handler say of players who connect, send messages and are matched.
use pokemon_simulator_server.Base.{
  String, str_eq, if◌then◌else◌, insert, ℕ, ◌≡◌, refl, string_eq, false, none, some, Option, List,
  [], ◌∷◌, pos, lookup, arith, nat_eq, Memᴰ, none_ne_some,
}
use pokemon_simulator_server.Engine.Instance.{EngineInstance}
use pokemon_simulator_server.Protocol.{response, code_success, Payload}
use pokemon_simulator_server.Room.Env.{parsed}
use pokemon_simulator_server.Room.Manager.{set_room_id, Server, find_session, new_room, admitted}
use pokemon_simulator_server.Room.Manager.Closing.{clean_up_if_still_offline}
use pokemon_simulator_server.Room.Game.{send_to}
use pokemon_simulator_server.Room.Heap.{update}
use pokemon_simulator_server.Handler.Site.{Site, returned}
use pokemon_simulator_server.Handler.Router.{
  Json, init_game_routers, new_router, register, dispatch, dispatch_parsed, route, run_command,
  handle_match,
}
use pokemon_simulator_server.Handler.Router.People.{IsPeopled}
use pokemon_simulator_server.Handler.Steps.{
  Running, IsRunning, SiteStep, SiteReach, SiteReach-IsRunning,
}
use pokemon_simulator_server.Handler.Websocket.{open_ws, close_ws}
use pokemon_simulator_server.Room.Manager.Exit.{remainder}
use pokemon_simulator_server.Handler.Websocket.Offline.{close_ws-clean_up}
use pokemon_simulator_server.Handler.Websocket.Reconnect.{IsOn, open_ws-returning}
use pokemon_simulator_server.Handler.Matching.{turned, worker_turn, worker_turn-pair}
use pokemon_simulator_server.Examples.Data.{people, ann_waits, env, server_with, engine}
use pokemon_simulator_server.Examples.Rooms.{empty_server, s_only_created}
use pokemon_simulator_server.Examples.Stores.{memory, codec_r}

abbrev site_of : Server → List ℕ → Site
site_of v queue = record {
  server = v;
  tasks = [];
  match_queue = queue;
  closed = [];
  pumps = [];
  syncs = [];
  timers = [];
}

-- ann is registered under her id, on the connection 1.
abbrev with_ann : Server
with_ann = record (server_with []) {
  manager = record { rooms = []; all_sessions = ("ann", 0) ∷ [] };
}

ann_found : find_session with_ann "ann" ≡ some 0
unfolding find_session lookup
ann_found = refl

open_ws-returning_example :
    let (served, y) = open_ws env "ann" (some 9) (site_of with_ann []) in
    (served ≡ some 0)
    × IsOn with_ann 0 9 y.server
    × ((eng : Option EngineInstance) → clean_up_if_still_offline env eng "ann" y.server ≡ y.server)
    × ((old : ℕ) → nat_eq 9 old ≡ false → (close_ws 0 old y).server ≡ y.server)
open_ws-returning_example = open_ws-returning env "ann" 0 9 (site_of with_ann []) refl ann_found

-- Every message asks for a match.
abbrev asks_match : Json
asks_match = record {
  unmarshal_request = λ text. parsed (record { cmd = "match"; body = "" });
  join_room_id = λ text. "";
  debug_json = λ n now infos status. "";
}

worker_turn-pair_example :
    let x = site_of empty_server (1 ∷ 2 ∷ []) in
    let y = site_of empty_server (2 ∷ []) in
    (z : Site) × (worker_turn env ("s" ∷ []) none (1 ∷ 2 ∷ []) x ≡ turned (some 1) y)
    × (worker_turn env ("s" ∷ []) (some 1) (2 ∷ []) y ≡ turned none z)
    × (z.match_queue ≡ [])
    × (lookup "s" z.server.rooms ≡ some (admitted (new_room "s" "bob" 1) "eve" 2))
    × ((z.server.heap.cell 2).room_id ≡ "s")
worker_turn-pair_example =
    worker_turn-pair env ("s" ∷ []) 1 2 [] (site_of empty_server (1 ∷ 2 ∷ [])) refl s_only_created
      refl

abbrev running : Site → Running
running x = record { site = x; held = none }

-- ann's messages are read from the connection 1.
abbrev ann_connected : Site
ann_connected = record (site_of with_ann []) { pumps = (0, 1) ∷ [] }

-- ann has asked for a match.
abbrev ann_queued : Site
ann_queued = record ann_connected {
  server = send_to env 0 (response "match_res" code_success "已进入匹配队列" Payload.nil) with_ann;
  match_queue = 0 ∷ [];
}

ann_asked :
    dispatch env memory codec_r asks_match engine []
      (pos 200)
      none
      (init_game_routers new_router)
      0
      "text"
      ann_connected
    ≡ returned ann_queued
unfolding dispatch dispatch_parsed route run_command handle_match init_game_routers register insert
    lookup
ann_asked = refl

-- Then she loses her connection, and eve comes.
ann_left :
    SiteReach memory codec_r
      (running ann_connected)
      (running (open_ws env "eve" (some 8) (close_ws 0 1 ann_queued)).1)
ann_left =
    SiteReach.and_then
      (SiteReach.and_then
        (SiteReach.and_then SiteReach.start_here (
          SiteStep.dispatched env asks_match engine [] (pos 200) none (init_game_routers new_router)
            0 1 "text" (running ann_connected) ann_queued (Memᴰ.head refl) ann_asked))
        (SiteStep.ended 0 1 (running ann_queued)))
      (SiteStep.opened env "eve" (some 8) (running (close_ws 0 1 ann_queued)))

ann_connected-IsPeopled : IsPeopled none ann_connected
ann_connected-IsPeopled = record {
  table = ((refl, omega arith), tt);
  queued = tt;
  pumping = (omega arith, tt);
  holding = λ p e. absurd (none_ne_some e);
}

SiteReach-IsRunning_example :
    IsRunning (running (open_ws env "eve" (some 8) (close_ws 0 1 ann_queued)).1)
SiteReach-IsRunning_example =
    SiteReach-IsRunning memory codec_r ann_left ((tt, omega arith), ann_connected-IsPeopled)

-- ann waits alone in the room "r".
abbrev ann_inside : Server
ann_inside = record {
  manager = record { rooms = ("r", ann_waits) ∷ []; all_sessions = ("ann", 0) ∷ [] };
  heap = set_room_id people 0 "r";
  calls = [];
}

-- The server when her clean-up runs: in the meantime bob has connected.
abbrev ann_gone : Server
ann_gone = record ann_inside {
  manager = record { rooms = ("r", ann_waits) ∷ []; all_sessions = ("bob", 1) ∷ ("ann", 0) ∷ [] };
  heap =
      update (set_room_id people 0 "r") 0 (record (people.cell 0) { room_id = "r"; conn = none });
}

inside_found : find_session ann_gone "ann" ≡ some 0
unfolding find_session lookup
inside_found = refl

r_there : lookup "r" ann_gone.rooms ≡ some ann_waits
unfolding lookup
r_there = refl

close_ws-clean_up_example :
    let y = close_ws 0 1 (site_of ann_inside []) in
    let w = clean_up_if_still_offline env (some engine) "ann" ann_gone in
    ((y.server.heap.cell 0).conn ≡ none)
    × (y.timers ≡ "ann" ∷ [])
    × ((k : String)
        → lookup k w.rooms
          ≡ (if str_eq "r" k then remainder ann_waits "ann" else lookup k ann_gone.rooms))
    × (find_session w "ann" ≡ none)
    × ((w.heap.cell 0).room_id ≡ "")
close_ws-clean_up_example =
    close_ws-clean_up env (some engine) "ann" 0 0 1 (site_of ann_inside []) ann_gone ann_waits refl
      inside_found refl refl r_there
