-- ===== src/Examples.antt =====
-- Small servers, engines and rings, and what the theorems say of them.
mod Data
mod Engines
mod Rings
mod Rooms
mod Games
mod Upkeep
mod Clusters
mod Stores
mod Moves
mod Handlers
