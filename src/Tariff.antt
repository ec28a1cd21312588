-- ===== src/Tariff.antt =====
-- The tariff subsystem (src/tariff).
pub mod Types
pub mod Engine
pub mod Caps
pub mod Stay
pub mod Schedule
pub mod Draft
pub mod Quote
pub mod Plans
