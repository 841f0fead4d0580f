-- ===== src/Config.antt =====
-- The reading of configuration values, src/atframe/atapp_conf.cpp.
pub mod Expression
pub mod Duration
