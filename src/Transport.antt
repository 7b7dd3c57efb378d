-- ===== src/Transport.antt =====
-- The transports of the client (package rstream): the automatic choice between QUIC and TLS.
pub mod Auto
