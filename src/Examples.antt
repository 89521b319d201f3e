-- ===== src/Examples.antt =====
-- The theorems at concrete inputs, and runs of the definitions.
pub mod Networks
pub mod Handlers
pub mod Loading
pub mod Lines
pub mod Messages
pub mod Services
pub mod Logins
