-- ===== src/Vmi.antt =====
-- Guest introspection: how guest addresses are translated, and the cache of translations.
pub mod Errors
pub mod X86
pub mod Cache
mod Tests
