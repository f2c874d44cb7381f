-- ===== src/Attendance.antt =====
-- internal/attendance: the repository over its Postgres tables, and the service above it.
pub mod Tables
pub mod Events
pub mod Query
pub mod Employees
pub mod Listing
pub mod Text
pub mod Updates
pub mod Service
pub mod Keys
pub mod Integrity
pub mod Outcome
pub mod Spacing
pub mod Registration
mod Tests
