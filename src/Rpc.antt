-- ===== src/Rpc.antt =====
-- internal/rpc/client.go.
pub mod Ring
pub mod Calls
