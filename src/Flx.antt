-- ===== src/Flx.antt =====
-- internal/binary/flx: the flux-lang bytecode.
pub mod Table
pub mod Pool
pub mod Disasm
pub mod Container
