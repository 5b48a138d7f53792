-- ===== src/Http.antt =====
-- src/http.cpp and src/http.h: reading, parsing and writing of HTTP messages.
pub mod Chars
pub mod Percent
pub mod Request
pub mod Response
pub mod ReadHead
