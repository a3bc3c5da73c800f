-- ===== src/Daemon/Curl/Request/Body.antt =====
-- curl_manager.c: the body of a request is complete, and its prompt is a JSON string.
