-- ===== src/Server.antt =====
-- Package server: the pipes, tunnels and loops of a control, and the handlers of connections.
pub mod Pipes
pub mod Tunnels
mod Examples
pub mod Config
pub mod Manage
pub mod Https
pub mod Loops
pub mod Http
mod HttpExamples
pub mod Registry
pub mod Query
