-- ===== src/Client.antt =====
-- Package client: the configuration, the choice of the transport, the tunnels and the loops.
pub mod Config
pub mod Switch
pub mod Tunnels
mod Examples
pub mod Loops
