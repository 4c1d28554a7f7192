-- ===== src/Tests.antt =====
-- Runs of the model on concrete accounts, and the conditions of its theorems met there.
pub mod Samples
pub mod Commits
pub mod Devices
pub mod Logins
pub mod Settings
pub mod Get
pub mod Keys
pub mod Host
pub mod Unlock
pub mod Sessions
pub mod Recovery
pub mod Cli
pub mod Boxes
pub mod Wire
pub mod Scenario
