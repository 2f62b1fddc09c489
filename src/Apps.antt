-- ===== src/Apps.antt =====
-- src/apps: the two programs.
pub mod Initiator
pub mod Responder
pub mod EndToEnd
