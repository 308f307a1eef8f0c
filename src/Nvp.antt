-- ===== src/Nvp.antt =====
-- FastCGI name-value pairs: src/name-value-pairs.cpp and include/fcgi/name-value-pairs.hpp.
mod Tests
pub mod Serializer
pub mod Deserializer
pub mod Maps
