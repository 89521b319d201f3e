-- ===== src/State.antt =====
-- util/state.py: what the bot knows of channels and users.
pub mod Prefixes
pub mod Model
pub mod Membership
pub mod Views
pub mod Invariant
pub mod Tracking
pub mod Modes
pub mod Events
