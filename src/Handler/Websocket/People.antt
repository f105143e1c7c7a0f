-- ===== src/Handler/Websocket/People.antt =====
-- internal/handler/websocket.go: the sessions that a site names, as connections open and end.
use pokemon_simulator_server.Base.{
  ℕ, ◌<◌, ◌≡◌, refl, sym, ap, ◌∙◌, String, str_eq, string_eq, Option, none, some, [], ◌∷◌, ◌++◌,
  lookup, is_some, arith, All-insert, All-append, All-lookup, Bool-cases, inl, inr,
}
use pokemon_simulator_server.Protocol.{GameResponse}
use pokemon_simulator_server.Room.Session.{Session, new_session, same_conn}
use pokemon_simulator_server.Room.Env.{Env}
use pokemon_simulator_server.Room.Manager.{find_session, register_session}
use pokemon_simulator_server.Room.Game.{send_to}
use pokemon_simulator_server.Room.Invariant.{Listed, Extends, players-heap, SamePlayers-update}
use pokemon_simulator_server.Room.Invariant.Sends.{send_to-OnlySends}
use pokemon_simulator_server.Room.People.{SamePeople-heap, OnlySends-SamePeople}
use pokemon_simulator_server.Room.Restore.{allocate}
use pokemon_simulator_server.Room.Restore.Players.{cell-allocate, cell-allocate_self}
use pokemon_simulator_server.Handler.Site.{Site, at_server}
use pokemon_simulator_server.Handler.Router.People.{IsPeopled, IsPeopled-server, still-below}
use pokemon_simulator_server.Handler.Websocket.{
  set_conn, open_new, player_of, resume, take_over, open_found, open_ws, close_ws,
}

module _ (held : Option ℕ) where
  told_here :
      (env : Env) (p : ℕ) (m : GameResponse) (x : Site)
      → IsPeopled held x
      → IsPeopled held (at_server x (send_to env p m x.server))
  told_here env p m x =
      IsPeopled-server held x _ (OnlySends-SamePeople (send_to-OnlySends env p m x.server))

  resume-IsPeopled :
      (env : Env) (p : ℕ) (x : Site) → IsPeopled held x → IsPeopled held (resume env p x)
  unfolding resume
  resume-IsPeopled env p x i = elim (Bool-cases (str_eq (x.server.heap.cell p).room_id "")) [
    | inl q ↦ rw q (told_here env p _ x i)
    | inr q ↦ elim (Bool-cases (is_some (lookup (x.server.heap.cell p).room_id x.server.rooms))) [
      | inl r ↦
          rw (q, r)
            (record {
              table = i.table;
              queued = i.queued;
              pumping = i.pumping;
              holding = i.holding;
            })
      | inr r ↦ rw (q, r) (told_here env p _ x i)
    ]
  ]

  set_conn-IsPeopled :
      (p : ℕ) (conn : Option ℕ) (x : Site)
      → IsPeopled held x
      → IsPeopled held (at_server x (set_conn x.server p conn))
  set_conn-IsPeopled p conn x =
      IsPeopled-server held x (set_conn x.server p conn)
        (SamePeople-heap x.server _ (SamePlayers-update x.server.heap p _ refl))

  -- A session that is allocated for a player and listed under his id.
  open_new-IsPeopled :
      (uid : String) (conn : ℕ) (x : Site) → IsPeopled held x → IsPeopled held (open_new uid conn x)
  unfolding open_new register_session
  open_new-IsPeopled uid conn x i =
      let s = new_session (player_of uid) (some conn) in
      let h = allocate x.server.heap s in
      let ext : Extends x.server.heap h = record {
        at = λ q b. ap (λ (t : Session). t.player) (cell-allocate x.server.heap s q b);
        grown = omega arith;
      } in
      let self = ap (λ (t : Session). t.player.id) (cell-allocate_self x.server.heap s) in
      record {
        table =
            All-insert (Listed h) uid x.server.heap.next x.server.all_sessions
              (λ j e. (self ∙ sym e, omega arith)) (players-heap x.server.all_sessions ext i.table);
        queued = still-below (λ q. q) x.match_queue ext.grown i.queued;
        pumping = still-below (λ (t : ℕ × ℕ). t.0) x.pumps ext.grown i.pumping;
        holding = λ p e. let b = i.holding p e in omega (arith, b);
      }

  -- The session p is served by one more write pump.
  pumped-IsPeopled :
      (p conn : ℕ) (x : Site)
      → p < x.server.heap.next
      → IsPeopled held x
      → IsPeopled held (record x { pumps = x.pumps ++ ((p, conn) ∷ []) })
  pumped-IsPeopled p conn x b i = record {
    table = i.table;
    queued = i.queued;
    pumping =
        All-append (λ (t : ℕ × ℕ). t.0 < x.server.heap.next) x.pumps ((p, conn) ∷ []) i.pumping
          (b, tt);
    holding = i.holding;
  }

  open_found-IsPeopled :
      (env : Env) (uid : String) (conn : ℕ) (o : Option ℕ) (x : Site)
      → ((p : ℕ) → o ≡ some p → p < x.server.heap.next)
      → IsPeopled held x
      → IsPeopled held (open_found env uid conn o x).1
  unfolding open_found take_over open_new register_session
  open_found-IsPeopled env uid conn none x b i =
      pumped-IsPeopled x.server.heap.next conn (open_new uid conn x) (omega arith)
        (open_new-IsPeopled uid conn x i)
  open_found-IsPeopled env uid conn (some p) x b i =
      let on = set_conn-IsPeopled p (some conn) x i in
      let pumped =
        pumped-IsPeopled p conn (at_server x (set_conn x.server p (some conn))) (b p refl) on in
      resume-IsPeopled env p _ (record {
        table = pumped.table;
        queued = pumped.queued;
        pumping = pumped.pumping;
        holding = pumped.holding;
      })

  pub open_ws-IsPeopled :
      (env : Env) (uid : String) (conn : Option ℕ) (x : Site)
      → IsPeopled held x
      → IsPeopled held (open_ws env uid conn x).1
  unfolding open_ws find_session
  open_ws-IsPeopled env uid none x i = i
  open_ws-IsPeopled env uid (some conn) x i = elim (Bool-cases (str_eq uid "")) [
    | inl q ↦ rw q i
    | inr q ↦ rw q (
        open_found-IsPeopled env uid conn (lookup uid x.server.all_sessions) x
          (λ p found. (All-lookup (Listed x.server.heap) uid x.server.all_sessions i.table found).1)
          i)
  ]

  pub close_ws-IsPeopled :
      (p conn : ℕ) (x : Site) → IsPeopled held x → IsPeopled held (close_ws p conn x)
  unfolding close_ws
  close_ws-IsPeopled p conn x i = elim (Bool-cases (same_conn (x.server.heap.cell p).conn conn)) [
    | inl q ↦
        let off = set_conn-IsPeopled p none x i in
        rw q (record {
          table = off.table;
          queued = off.queued;
          pumping = off.pumping;
          holding = off.holding;
        })
    | inr q ↦
        rw q
          (record { table = i.table; queued = i.queued; pumping = i.pumping; holding = i.holding })
  ]
