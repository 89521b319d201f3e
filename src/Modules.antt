-- ===== src/Modules.antt =====
-- util/moduleloader.py, and the loading of modules in util/dispatcher.py.
pub mod Registry
pub mod Load
