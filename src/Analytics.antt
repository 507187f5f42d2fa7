-- ===== src/Analytics.antt =====
-- The windows of days that the reports are drawn over: backend/src/utils/dateRange.ts.
pub mod Range
pub mod Days
