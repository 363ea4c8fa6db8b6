-- ===== src/Clob/Orders.antt =====
-- clob/client.go: building an order from its options, and posting orders.
pub mod Amounts
pub mod AmountLaws
pub mod Build
pub mod BuildLaws
pub mod Post
pub mod PostLaws
