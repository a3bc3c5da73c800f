-- ===== src/Daemon/Loop.antt =====
-- examples/streaming-daemon-uring/daemon.c: the main loop, for the build without BACKEND_OPENAI, in
-- which no connection has an asynchronous write buffer. The children: the state, the list of dirty
-- connections, the handlers of the completions, the loop.
pub mod State
pub mod Dirty
pub mod Handlers
pub mod Writes
pub mod Steps
pub mod Relinked
pub mod Sound
pub mod Safety
pub mod Stale
pub mod Uncounted
pub mod Orphan
mod Tests
