-- ===== src/State/Tracking.antt =====
-- util/state.py: the invariant of the tracked state under the methods of `Network` that move users.
pub mod Part
pub mod Join
pub mod Rename
pub mod Nuke
