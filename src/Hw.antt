-- ===== src/Hw.antt =====
-- internal/hw: frames over serial lines.
pub mod Serial
