-- ===== src/Ats.antt =====
-- Address Translation Services: the translation cache, the request engine, and the handler of
-- invalidation messages.
pub mod Atc
pub mod Engine
pub mod Invalidation
pub mod System
