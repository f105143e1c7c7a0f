-- ===== src/Lib.antt =====
-- pokemonSimulatorServer: a Go server that lets players meet in rooms, choose their teams and fight
-- battles that external C++ engines compute.
--
-- A player's connection is a Session (internal/room/session.go) with a channel of outgoing messages.
-- RoomManager (internal/room/manager.go) keeps the rooms and the sessions by player; GameRoom lists the
-- sessions of its one or two players and their ready flags. A room starts (internal/room/game.go) on
-- request or once both players have chosen a team: StartGame picks a node of the EngineInstance
-- (internal/engine/manager.go) and launches a goroutine that creates the battle there over gRPC. Battle
-- actions are passed on to that node with the player's side, and the answer is sent to both players.
-- NodeManager (internal/rpc/client.go) is a registry of the same nodes with a consistent-hash ring. The
-- instance's health check (internal/engine/manager.go) connects to pods, reconnects and removes them, and
-- asks RoomManager to move the rooms of failed nodes, whose snapshots are in Redis
-- (internal/store/redis_store.go); a server that starts restores its rooms from them. Clients connect
-- over websockets (internal/handler/websocket.go), their messages are dispatched by command
-- (internal/handler/router.go), and a worker pairs the players of MatchQueue (internal/room/match.go).
--
-- The files:
--   Base        shared helpers: tests and orders, lists, Go's maps as association lists, sorting.
--   Configs     configs/config.go: the constants that are read, and the settings of Redis.
--   Cmd         cmd/server/main.go: start, end, and the debug page of a snapshot.
--   Protocol    internal/protocol/msg.go and internal/model/player_model.go.
--   Engine      internal/engine/manager.go. Engine/Node is EngineNode with its methods, Engine/Instance
--               is EngineInstance with GetNodeForRoom, pickPreferredNodeForRoom and GetStatus,
--               Engine/Pick what a choice of a node promises. Engine/Upkeep is the health check:
--               heartbeats, failed reconnections, the removal of nodes and the replica count.
--               Engine/Connect is connecting and reconnecting, Engine/Health the loops, NewEngineInstance
--               and Shutdown; Engine/Health/Coherent and Engine/Health/Keeps hold the agreement of the
--               instance with rpc.Mgr, Engine/Health/Steps the steps that an engine's life is made of.
--   Rpc         internal/rpc/client.go. Rpc/Ring is NodeManager, Rpc/Ring/Search is sort.Search,
--               Rpc/Ring/Laws and Rpc/Ring/Lookup what the ring keeps and finds. Rpc/Calls is the
--               calls of the engine's gRPC interface.
--   Room        internal/room. Room/Session is Session with its channel, SendResponse and WritePump;
--               Room/Heap the sessions that pointers share, with BroadcastToRoom, and Room/Heap/Sent
--               what sending leaves of them; Room/GameRoom is
--               GameRoom with the payload of a battle and its sides; Room/Env what the code calls
--               outside of the repository; Room/Manager (with Room/Manager/Closing) is RoomManager;
--               Room/Game, Room/Game/Select and Room/Game/Action are game.go; Room/Match is match.go,
--               Room/Failover is pickHealthyNodeForRoom, Room/Reassign the moving of rooms with
--               Room/Reassign/Reasons, Room/Reassign/Pass and Room/Reassign/Counts on what a pass does, Room/Restore is
--               RestoreFromStore with Room/Restore/Named, Room/Restore/Described, Room/Restore/Rooms and Room/Restore/Start. Room/Manager/Enter,
--               Room/Manager/Exit, Room/Game/Start, Room/Game/Launch, Room/Game/Select/Teams and Room/Sides hold what the
--               operations promise, Room/Invariant and its children what every operation keeps of
--               rooms, Room/People and its children of sessions.
--   Store       internal/store/redis_store.go, its loops over SCAN in Store/Listing. Store/Laws and
--               Store/Bindings hold what is read back, Store/Pages what a scan comes to.
--   Handler     internal/handler: Handler/Router is router.go, Handler/Websocket is websocket.go, and
--               Handler/Matching the worker of internal/room/match.go over MatchQueue. Handler/Site is
--               the state that they share, Handler/Steps how all of this interleaves.
--   Examples    small servers, engines and rings that the theorems are applied to.
--
-- How the model corresponds to the code:
--   - A definition carries the Go name in snake case: JoinRoom is join_room. A part of a function that
--     has a name of its own is a helper beside it.
--   - An operation takes the server's state (the manager, the sessions, the calls made to the engine so
--     far) and returns the new one. A goroutine of StartGame is a StartTask that runs as a later step.
--     Operations are atomic: the mutexes of the code make most of them so, and what they interleave
--     with is the steps of Room/Invariant/Steps. A session is a cell of a heap:
--     a new one is allocated when a player connects for the first time or is restored, and an
--     operation takes the pointers of allocated sessions.
--   - A Go map is an association list whose order is the order in which range happens to visit it, so
--     a theorem about every list is one about every order.
--   - encoding/json, hash/crc32 and the gRPC calls are the fields of Room/Env, or a parameter. A call
--     that is retried takes the number of the attempt and may answer differently each time. The random
--     ids that CreateRoom draws are a list of strings, as long as its loop runs.
--   - The retry loops run on the number of attempts left. sort.Search runs on a fuel of the length of
--     its range, which is enough because each round shortens the range. A decimal number has at most
--     twenty digits, which is enough for 64 bits.
--   - A blocking send to a full channel is one receive by the other end followed by the send: a receive is
--     taken to come. A sender that waits for ever, since the channel's WritePump has ended, is left out.
--   - none as the result of a battle action is a panic. Times, time-outs and log lines are left out.
--   - What the network answers is a function of the pod for one pass of a loop, and another one for the
--     next. The time between two turns of attemptReconnectLoop is given by its back-off alone.
--   - Redis is an interface of the commands that are sent, in Store; a theorem that needs it to answer by
--     the last write says so. The loops over SCAN run on a fuel of pages, and as many pages as the scan
--     has are enough. What the C++ engine does to Redis when it destroys a room is a parameter.
--   - A pass that moves rooms takes the engine as it is when the pass starts.
--
-- Not modelled: generated code, the client of go-redis and its Close, the upgrade of an HTTP request, the
-- frames of a websocket, HTTP servers, signals and logging, and the test clients. Messages to players of a
-- room that DestroyAllRooms has dropped while its goroutine still runs are left out, and so are the races
-- of code that reads a field or a map without its mutex, and what other goroutines see while LeaveRoom has
-- released the room's mutex and DeleteRoom still waits for the engine.
pub mod Base
pub mod Cmd
pub mod Configs
pub mod Engine
pub mod Examples
pub mod Handler
pub mod Protocol
pub mod Room
pub mod Rpc
pub mod Store
