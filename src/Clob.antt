-- ===== src/Clob.antt =====
-- The package `clob`: the trading client of the CLOB and the on-chain client.
pub mod Errors
pub mod Effects
pub mod Deps
pub mod Relayer
pub mod Onchain
pub mod Types
pub mod Auth
pub mod Floats
pub mod Orders
pub mod Http
pub mod Json
pub mod Market
pub mod Account
pub mod Credentials
pub mod Flex
pub mod Fixture
mod Witnesses
mod WaitWitnesses
mod OrderWitnesses
mod AccountWitnesses
