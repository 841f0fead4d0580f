-- ===== src/App.antt =====
-- The application core: src/atframe/atapp.cpp, and the base class of its modules.
pub mod Id
pub mod Stop
pub mod Tick
