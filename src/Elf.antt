-- ===== src/Elf.antt =====
-- internal/binary: the reader of ELF files.
pub mod Types
pub mod Names
pub mod Header
pub mod Sections
pub mod Segments
pub mod Symbols
pub mod Reader
pub mod Safety
mod TestFile
mod TestParts
mod Tests
