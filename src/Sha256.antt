-- ===== src/Sha256.antt =====
-- src/base/utils.hpp and src/base/utils.cpp: the class SHA256 and the random salt. A uint32_t is a
-- number below 2 ^ 32, and every sum, shift and complement is cut to its width.
pub mod Round
pub mod Stream
pub mod Text
mod Tests
