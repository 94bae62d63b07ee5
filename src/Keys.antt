-- ===== src/Keys.antt =====
-- crates/acetone-model/src/keys.rs: the order-preserving encoding of key tuples. A byte vector is a
-- list of numbers, and a reader's position is what is left of its input.
pub mod Tag
pub mod Cmp
pub mod Write
pub mod Read
pub mod Encoding
pub mod Order
pub mod Accepts
pub mod RoundTrip
pub mod Strict
pub mod Total
pub mod Contract
pub mod Front
mod Tests
