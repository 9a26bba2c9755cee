-- ===== src/Json.antt =====
-- include/gpcl/json.hpp
pub mod Text
pub mod Value
pub mod Parser
pub mod Builder
pub mod Serializer
pub mod RoundTrip
pub mod Totality
