-- ===== src/Booking.antt =====
-- The life of a booking (src/booking/booking.service.ts).
pub mod Access
pub mod Confirm
pub mod Cancel
pub mod Stay
pub mod Create
pub mod Repeats
