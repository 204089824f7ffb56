-- ===== src/Report.antt =====
-- pkg/report: hex dumps and tables.
pub mod HexDump
pub mod Table
mod Tests
