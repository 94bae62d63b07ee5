-- ===== src/ValueCodec.antt =====
-- crates/acetone-model/src/values.rs: values in canonical CBOR.
pub mod Floats
pub mod Scaled
pub mod Half
pub mod Single
pub mod Write
pub mod Read
pub mod Item
pub mod Accepts
pub mod Canonical
pub mod FloatItems
pub mod Scalars
pub mod RoundTrip
pub mod Strict
pub mod Total
pub mod Contract
mod Tests
