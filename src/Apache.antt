-- ===== src/Apache.antt =====
-- mod_socket_handoff.c, the Apache module.
pub mod Config
pub mod Deadline
pub mod Os
pub mod Samples
pub mod Connect
pub mod Retry
pub mod Send
pub mod SocketPath
pub mod Filter
