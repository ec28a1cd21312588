-- ===== src/Ticket.antt =====
-- Tickets at the barrier (src/booking/qr-ticket.ts, src/booking/qr-replay.cache.ts,
-- src/booking/ticket.service.ts, src/booking/credentials.ts).
pub mod Payload
pub mod Credentials
pub mod Replay
pub mod Scan
