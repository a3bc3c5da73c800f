-- ===== src/Daemon/Curl.antt =====
-- examples/streaming-daemon-uring/curl_manager.c. libcurl is a parameter: what it calls back with and what it
-- answers. The children: the lines of a response, the content of a line, the polls and the timer that libcurl asks
-- for, the request, and the start with the environment.
pub mod Lines
pub mod Content
pub mod Polls
pub mod Request
pub mod Start
mod Tests
