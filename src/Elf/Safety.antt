-- ===== src/Elf/Safety.antt =====
-- internal/binary: when the ELF reader panics.
pub mod Entries
pub mod Sections
pub mod Symbols
pub mod File
