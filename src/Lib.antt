-- ===== src/Lib.antt =====
-- mod_socket_handoff: an Apache module that hands a client's connection over to a streaming daemon, and
-- the daemon that receives it.
--
-- The program. An Apache handler (PHP, say) answers with the header X-Socket-Handoff, which names a Unix
-- socket. The output filter of mod_socket_handoff.c checks the path, connects to the daemon with retries, sends
-- the client's descriptor with SCM_RIGHTS and the data of X-Handoff-Data, and puts a dummy socket in the
-- client's place. examples/streaming-daemon-uring is a daemon that receives descriptors: an io_uring event
-- loop takes a connection from a pool, streams a response to the client as server-sent events and
-- buffers what the socket does not take at once.
--
-- The files.
--   Base            lists over the native numbers, Boolean tests, C strings as lists of bytes, the bitwise or.
--   Apache          mod_socket_handoff.c:
--     Config        the server's configuration, create_server_config, merge_server_config, the directives.
--     Deadline      remaining_timeout_ms, compute_handoff_deadline.
--     Os            the system calls: a record of answers, and the world with its open descriptors, the clock's
--                   readings, the time waited and slept, and the messages sent.
--     Connect       connect_to_socket, one attempt, with every system call that can fail.
--     Retry         is_transient_error, connect_with_retry.
--     Send          wait_for_write, send_fd_with_data.
--     SocketPath    validate_socket_path, socket_handoff_post_config.
--     Filter        socket_handoff_output_filter with its cleanup label, socket_handoff_insert_filter.
--   Daemon          examples/streaming-daemon-uring:
--     WriteBuffer   write_buffer.c and write_buffer.h.
--     Streaming     streaming.c.
--     ConnPool      connection.c and the pool of daemon.h.
--     Ring          ring.c and the user data of ring.h; a ring is the log of its entries.
--     ThreadPool    pool.c: the work queue, the ring of completions, worker_thread; Schedule interleaves them, with
--                   the waits on the condition variable and the eventfd.
--     Handoff       json.c and handoff.c: the keys of the data, the trimming, the descriptor of a message.
--     Loop          daemon.c: State is daemon_ctx_t, Dirty the list of dirty connections, Handlers and Writes the
--                   handlers of completions, Steps process_cqe.
--     Curl          curl_manager.c without the daemon: Lines and Content the lines of a response and what they carry,
--                   Polls the sockets and the timer of libcurl, Request the body and the start of a request,
--                   Start the environment.
--     Async         daemon.c and curl_manager.c in the build with BACKEND_OPENAI: Writing the asynchronous writes, Flush
--                   flush_streaming_connections, Receiving write_callback and the ends of requests, Steps
--                   process_cqe with the calls of libcurl in between.
--     Settings      config.c and daemon_init; CommandLine parse_args and what main starts.
--     Server        server.c.
--     Backend       backend_openai.c: what a worker thread does with a connection.
-- A file X.antt has the definitions, with the C names; the files in X/ have the theorems, named for what they are
-- about, and X/Tests.antt has runs on concrete inputs.
--
-- How the parts interact. Filter composes SocketPath, Retry, which composes Deadline and Connect, and Send,
-- over one world that each of them takes and returns. Loop composes the daemon's parts: a handler allocates and
-- frees in ConnPool, submits to Ring and ThreadPool, and takes its messages from Streaming; its state holds
-- theirs. The completions are an arbitrary sequence, each with what the kernel answers while it is
-- handled. Async holds the state of Loop, the write buffers by their addresses and the number of requests: it
-- appends to WriteBuffer what Streaming makes of the content that Curl finds in a line, and submits to Ring. What
-- libcurl calls back with is a step of its own between two completions.
--
-- State and errors. A function that calls the system takes the world and returns it; a descriptor is in the
-- world's list from its creation to its close. An error is a value of a result type with the errno, -1 is
-- none where nothing else is returned, and a goto is a call of the definition that stands for its label.
--
-- Parameters. What the kernel answers (Os), httpd and APR (Apr, apr_filepath_merge), strtol, malloc, realloc,
-- snprintf of a long, liburing, libcurl, getenv, fgets, fopen, getopt_long, atoi, jsmn and strtoll are arguments; Loop takes what handoff_parse_data reads from
-- memory as one too. A theorem that relies on their behaviour says so among its hypotheses.
--
-- Numbers and bounds. size_t wraps at 2 ^ 64 where the code adds, subtracts or doubles it. The retry loop runs for
-- max_retries + 1 rounds by recursion on them, and so needs no fuel. A poll that a signal interrupts is asked
-- again as often as the system says, which is finitely often. Messages of a stream are collected with
-- fuel above the number of bytes left, each message having at least one. The walk along the dirty list takes at
-- most as many steps as there are connections, which the flag on_dirty_list keeps to one place each; a round of
-- json_find_key takes at least one token, and it has one round more than tokens; and the loop over the
-- completions of the thread pool at most completion_size, since the ring holds fewer. The loop over the lines of a
-- response has fuel above the length of the text, each line taking at least its newline. A flush takes at most as
-- many rounds as there are connections. The statistics count without a bound.
--
-- Not modelled. Logging; the registration of hooks and directives; of daemon.c the signals, the limit of
-- descriptors, the loop after a shutdown and daemon_cleanup but for the listener; pool_init and pool_cleanup, which start and join
-- threads; curl_manager_cleanup and the options of the multi handle; backend_init and the mock backend; the metrics; jsmn.h, which is a copy of another project; the daemons in other languages, fdrecv.c, the benchmarks
-- and the tests.
pub mod Base
pub mod Apache
pub mod Daemon
