-- ===== src/Robot/Admin.antt =====
-- server/app/api/admin.py, the administration of the robots.
pub mod Views
pub mod Routes
pub mod Enrolment
pub mod Renewed
pub mod Duplicates
