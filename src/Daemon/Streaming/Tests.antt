-- ===== src/Daemon/Streaming/Tests.antt =====
-- streaming.c on small texts.
use mod_socket_handoff.Base.{◌≡◌, refl, some, codes}
use mod_socket_handoff.Daemon.Streaming.{stream_format_sse, escape, escape_char}

event_text :
    stream_format_sse 64 (codes "a\"\n") ≡ some (codes "data: {\"content\":\"a\\\"\\n\"}\n\n")
unfolding stream_format_sse escape escape_char
event_text = refl
