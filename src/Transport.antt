-- ===== src/Transport.antt =====
-- The transports of messages: within a region (Transport/Local.antt), between regions by SYSV message
-- queues (Transport/Sysv.antt), and the search for the server (Transport/Socket.antt).
pub mod Local
pub mod Sysv
pub mod Socket
