-- ===== src/Handler.antt =====
-- internal/handler: the router of commands and the websocket handler, over the room manager.
pub mod Site
pub mod Router
pub mod Websocket
pub mod Matching
pub mod Steps
