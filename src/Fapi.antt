-- ===== src/Fapi.antt =====
-- The USD-M futures client: include/binapi2/fapi and src/binapi2/fapi.
pub mod Enums
pub mod EnumSet
pub mod Query
pub mod Rest
pub mod StreamBuffer
pub mod RotatingSink
pub mod Streams
