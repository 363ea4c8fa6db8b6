-- ===== src/Polymarket.antt =====
-- The package polymarket: the market and the user feed over websockets, the model of a market and its
-- fees, and the scanner of the Gamma API.
pub mod Ws
pub mod UserWs
pub mod UserSetup
pub mod Scanner
pub mod Market
pub mod Flex
mod Witnesses
mod MarketWitnesses
