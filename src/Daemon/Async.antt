-- ===== src/Daemon/Async.antt =====
-- daemon.c and curl_manager.c: the asynchronous writes of the build with BACKEND_OPENAI. To the daemon come the write
-- buffers, by their addresses, and the number of requests that libcurl runs.
pub mod Writing
pub mod Flush
pub mod Receiving
pub mod Kept
pub mod Steps
mod Tests
