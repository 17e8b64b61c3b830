-- ===== src/Base.antt =====
-- The base library (base).
pub mod CommandLine
pub mod Folder
pub mod Path
pub mod DynamicLib
pub mod Encoding
pub mod Logger
pub mod SystemInfo
