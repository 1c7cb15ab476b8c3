-- ===== src/Wire.antt =====
-- The wire format of memhook and memdb (include/memhook/serialization.h, byteswap.h, network.h).
pub mod Bytes
pub mod Types
pub mod Codec
pub mod RoundTrip
pub mod Truncation
pub mod Requests
