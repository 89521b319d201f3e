-- ===== src/Settings.antt =====
-- util/settings.py
pub mod Options
