-- ===== src/YouTube.antt =====
-- The YouTube Live side of an output: the texts of its warnings, the choice of a broadcast,
-- and the requests.
pub mod Warning
pub mod Response
pub mod Selection
pub mod Request
