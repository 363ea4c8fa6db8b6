-- ===== src/Polymarket/Scanner.antt =====
-- polymarket/scanner.go: HTTP with retries (Http), the markets and events of Gamma (Gamma), the index
-- of a question (Index) and the round trip times (Rtt).
pub mod Http
pub mod HttpLaws
pub mod Gamma
pub mod Index
pub mod IndexLaws
pub mod Rtt
