-- ===== src/Io.antt =====
-- src/io: squares and boards as text.
pub mod Text
pub mod Algebraic
pub mod Lines
pub mod BoardParser
pub mod BoardPrinter
pub mod BoardSetup
