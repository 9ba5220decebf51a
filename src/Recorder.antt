-- ===== src/Recorder.antt =====
-- The recorder: examples/binapi2/fapi/async-recorder.
pub mod Windows
pub mod Selector
