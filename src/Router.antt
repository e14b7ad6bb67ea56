-- ===== src/Router.antt =====
-- The HTTP routes of app/router/migration.py and app/router/employees.py.
pub mod Json
pub mod Body
pub mod Engine
pub mod Calls
pub mod Replies
pub mod Routes
pub mod Both
pub mod Proper
pub mod Staff
pub mod Statuses
pub mod Kept
pub mod Transfers
pub mod Reading
pub mod Deleting
pub mod Running
pub mod Responses
