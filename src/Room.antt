-- ===== src/Room.antt =====
-- internal/room: sessions, rooms, the room manager and the game.
pub mod Session
pub mod Heap
pub mod GameRoom
pub mod Env
pub mod Manager
pub mod Game
pub mod Invariant
pub mod Match
pub mod Failover
pub mod Reassign
pub mod Restore
pub mod Sides
pub mod People
