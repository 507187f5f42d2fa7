-- ===== src/Complaint.antt =====
-- Complaints: backend/src/services/complaint.service.ts, backend/src/constants/complaint.ts and
-- backend/src/models/complaint.model.ts. A complaint moves between four statuses under rules that
-- depend on who moves it, and every move is written into its history.
pub mod Model
pub mod Lifecycle
pub mod Service
pub mod Triage
pub mod Filing
pub mod Trail
pub mod Moves
pub mod Policy
pub mod Refusals
pub mod Sweep
pub mod Steps
