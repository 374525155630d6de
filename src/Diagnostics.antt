-- ===== src/Diagnostics.antt =====
-- karo_x2_sdk/diagnostics.py: the log levels. The records and their JSON form are in Diagnostics/Report.
pub mod Report
pub mod Logging

pub data LogLevel : Type 0 where
  trace debug info warn error off : LogLevel
