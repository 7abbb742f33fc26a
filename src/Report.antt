-- ===== src/Report.antt =====
-- The report (python/analytics/report): which figures it plans and draws.
pub mod Figures
mod Tests
