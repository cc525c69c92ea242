-- ===== src/Vhost.antt =====
-- Package vhost: the host that a new public connection asks for, and the rewriting of that host.
pub mod Handshake
pub mod Shared
pub mod Rewrite
pub mod Request
mod Examples
mod HttpExamples
