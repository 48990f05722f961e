-- ===== src/Ffi.antt =====
-- The C interface of the library (src/ffi.rs). A C string that is no null pointer is its text.
mod Tests
pub mod Text
pub mod Json
pub mod Media
pub mod Listing
