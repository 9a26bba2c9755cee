-- ===== src/Json/RoundTrip.antt =====
-- include/gpcl/json.hpp: parsing what was serialized.
pub mod Tokens
pub mod Scalars
pub mod Printable
pub mod Order
pub mod Values
pub mod Trees
pub mod Whole
