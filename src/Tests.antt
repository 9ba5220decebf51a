-- ===== src/Tests.antt =====
-- Examples: each theorem that has hypotheses, or is about all inputs, at concrete ones.
pub mod Decimals
pub mod Books
pub mod Names
pub mod Pairs
pub mod Buffers
pub mod Queries
pub mod Requests
pub mod Sinks
pub mod Windows
pub mod Selectors
pub mod Wraps
pub mod Streams
