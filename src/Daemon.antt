-- ===== src/Daemon.antt =====
-- examples/streaming-daemon-uring, the streaming daemon.
pub mod WriteBuffer
pub mod Streaming
pub mod ConnPool
pub mod Ring
pub mod ThreadPool
pub mod Loop
pub mod Handoff
pub mod Curl
pub mod Async
pub mod Settings
pub mod Backend
pub mod Server
