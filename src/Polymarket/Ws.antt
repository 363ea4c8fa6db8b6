-- ===== src/Polymarket/Ws.antt =====
-- polymarket/ws.go and polymarket/wsconn.go: the frames of the market feed, its subscription and the
-- loop that keeps a connection.
pub mod Events
pub mod EventLaws
pub mod Dispatch
pub mod DispatchLaws
pub mod Subscribe
pub mod Loop
pub mod LoopLaws
pub mod Deadman
pub mod Connection
pub mod ConnectionLaws
pub mod Setup
