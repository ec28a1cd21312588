-- ===== src/Examples.antt =====
-- Concrete plans, rows and runs, at which the theorems are applied.
pub mod Pricing
pub mod Bookings
pub mod Tickets
pub mod Subscriptions
pub mod Tariffs
pub mod Archives
