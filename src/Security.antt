-- ===== src/Security.antt =====
-- src/security and src/transport/tls_context.cpp: what the program demands of a certificate, and how it
-- sets up a TLS context.
pub mod Certificates
pub mod Profile
