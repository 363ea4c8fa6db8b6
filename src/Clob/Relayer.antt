-- ===== src/Clob/Relayer.antt =====
-- clob/relayer.go: transactions sent through the GSN relayer.
pub mod Gas
pub mod GasLaws
pub mod Sign
pub mod SignLaws
pub mod Preflight
pub mod PreflightLaws
pub mod Submit
pub mod SubmitLaws
pub mod Poll
pub mod PollLaws
pub mod WaitLaws
