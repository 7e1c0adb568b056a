-- ===== src/Symbols.antt =====
-- Resolving addresses to symbols: src/symbolization/.
pub mod Nearest
pub mod ProcMaps
pub mod Elf
pub mod Symbolizer
mod Tests
