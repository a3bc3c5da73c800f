-- ===== src/Daemon/Backend/Answered.antt =====
-- backend_openai.c: what the client got, by the result.
use mod_socket_handoff.Base.{
  ℕ, zero, suc, ◌+◌, ◌≡◌, refl, sym, ap, ◌∙◌, Bool, true, false, ◌&&◌, ◌||◌, not, Option, none,
  some, List, [], ◌∷◌, ◌++◌, append-nil, append_assoc, Bytes, codes, take, drop, take-append-drop,
  length, length-append, ◌==◌, Bool-cases, Option-cases, inl, inr, if◌then◌else◌,
}
use mod_socket_handoff.Base.Int.{ℤ}
use mod_socket_handoff.Daemon.Streaming.{stream_format_sse}
use mod_socket_handoff.Daemon.Loop.Handlers.{sse_headers, sse_done}
use mod_socket_handoff.Daemon.Curl.Lines.{
  Outcome, failed, fine, take_bytes, line_capacity, each_line, split_line, strip_return,
  after_process,
}
use mod_socket_handoff.Daemon.Curl.Content.{line_content}
use mod_socket_handoff.Daemon.Curl.Request.{Setup, or_text, token_limit, request_url}
use mod_socket_handoff.Daemon.Backend.{
  Write, wrote, interrupted, broken, Client, Response, write_all, write_client, Step,
  headers_written, send_headers, chunk_written, forward_text, forward_chunk, forward_content,
  process_line, grown_line, line_room, with_room, with_headers, write_callback, perform,
  then_perform, Transfer, Processed, not_streamed, end_stream, finish_stream, new_response,
  process_body, transfer_body, with_easy, with_key, backend_process,
}

-- Of `bytes` the first part was written behind `out`, and all of it on success.
pub record IsWritten (bytes out : Bytes) (o : Bool × Client) : Type 0 where
  pub done : Bytes
  pub rest : Bytes
  pub whole : bytes ≡ done ++ rest
  pub written : o.1.out ≡ out ++ done
  pub all : o.0 ≡ true → rest ≡ []

nothing-IsWritten :
    (bytes out : Bytes) (answers : List Write)
    → IsWritten bytes out (false, record { answers = answers; out = out })
nothing-IsWritten bytes out answers = record {
  done = [];
  rest = bytes;
  whole = refl;
  written = sym (append-nil out);
  all = λ e. cc;
}

pub write_all-IsWritten :
    (answers : List Write) (bytes out : Bytes) → IsWritten bytes out (write_all answers bytes out)
unfolding write_all
write_all-IsWritten answers [] out = record {
  done = [];
  rest = [];
  whole = refl;
  written = sym (append-nil out);
  all = λ e. refl;
}
write_all-IsWritten [] (c ∷ bytes) out = nothing-IsWritten (c ∷ bytes) out []
write_all-IsWritten (interrupted ∷ answers) (c ∷ bytes) out =
    write_all-IsWritten answers (c ∷ bytes) out
write_all-IsWritten (broken ∷ answers) (c ∷ bytes) out = nothing-IsWritten (c ∷ bytes) out answers
write_all-IsWritten (wrote n ∷ answers) (c ∷ bytes) out =
    let part = take n (c ∷ bytes) in
    let w = write_all-IsWritten answers (drop n (c ∷ bytes)) (out ++ part) in
    record {
      done = part ++ w.done;
      rest = w.rest;
      whole =
          sym (take-append-drop n (c ∷ bytes))
          ∙ ap (λ (x : Bytes). part ++ x) w.whole
          ∙ sym (append_assoc part w.done w.rest);
      written = w.written ∙ append_assoc out part w.done;
      all = w.all;
    }

-- Before the headers are sent the client has a part of them, and nothing unless there was an error; afterwards it has them
-- first; and without an error what was counted is what it has.
pub record IsSent (r : Response) : Type 0 where
  pub part : r.headers_sent ≡ false → (rest : Bytes) × (r.client.out ++ rest ≡ sse_headers)
  pub nothing : r.headers_sent ≡ false → r.error ≡ false → r.client.out ≡ []
  pub headers : r.headers_sent ≡ true → (rest : Bytes) × (r.client.out ≡ sse_headers ++ rest)
  pub counted : r.error ≡ false → r.bytes_sent ≡ length r.client.out

abbrev Sent : Step → Type 0
Sent (failed r) = IsSent r
Sent (fine r) = IsSent r × (r.headers_sent ≡ true)

abbrev SentLines : Outcome Response (Response × Bytes) → Type 0
SentLines (failed r) = IsSent r
SentLines (fine (r, held)) = IsSent r × (r.headers_sent ≡ true)

written_headers :
    (r : Response) (o : Bool × Client)
    → r.headers_sent ≡ false
    → r.client.out ≡ []
    → r.error ≡ false
    → IsSent r
    → IsWritten sse_headers r.client.out o
    → Sent (headers_written r o)
unfolding headers_written
written_headers r (true, client) h n e s w =
    let all : client.out ≡ sse_headers =
      w.written
      ∙ ap (λ (x : Bytes). x ++ w.done) n
      ∙ sym (w.whole ∙ ap (λ (x : Bytes). w.done ++ x) (w.all refl) ∙ append-nil w.done) in
    (
      record {
        part = λ f. cc;
        nothing = λ f g. cc;
        headers = λ f. ([], all ∙ sym (append-nil sse_headers));
        counted = λ f. rw (all, s.counted e, n) refl;
      },
      refl,
    )
written_headers r (false, client) h n e s w = record {
  part = λ f. (
    w.rest,
    ap (λ (x : Bytes). x ++ w.rest) (w.written ∙ ap (λ (x : Bytes). x ++ w.done) n) ∙ sym w.whole,
  );
  nothing = λ f g. cc;
  headers = λ f. cc;
  counted = λ f. cc;
}

written_chunk :
    (r : Response) (text : Bytes) (o : Bool × Client)
    → r.headers_sent ≡ true
    → IsSent r
    → IsWritten text r.client.out o
    → Sent (chunk_written r text o)
unfolding chunk_written
written_chunk r text (true, client) h s w =
    let (rest, e) = s.headers h in
    let all : client.out ≡ r.client.out ++ text =
      w.written
      ∙ ap (λ (x : Bytes). r.client.out ++ x)
          (sym (w.whole ∙ ap (λ (x : Bytes). w.done ++ x) (w.all refl) ∙ append-nil w.done)) in
    (
      record {
        part = λ f. cc;
        nothing = λ f g. cc;
        headers = λ f. (
          rest ++ text,
          all ∙ ap (λ (x : Bytes). x ++ text) e ∙ append_assoc sse_headers rest text,
        );
        counted = λ f.
            ap (λ (n : ℕ). n + length text) (s.counted f)
            ∙ sym (length-append r.client.out text)
            ∙ ap length (sym all);
      },
      h,
    )
written_chunk r text (false, client) h s w =
    let (rest, e) = s.headers h in
    record {
      part = λ f. cc;
      nothing = λ f g. cc;
      headers = λ f. (
        rest ++ w.done,
        w.written ∙ ap (λ (x : Bytes). x ++ w.done) e ∙ append_assoc sse_headers rest w.done,
      );
      counted = λ f. cc;
    }

module _ (realloc : ℕ → Bool) where
  line-Sent :
      (r : Response) (line : Bytes) → r.headers_sent ≡ true → IsSent r → Sent (process_line r line)
  unfolding process_line
  line-Sent r line h s = content (line_content line)
    where
      text : (o : Option Bytes) → Sent (forward_text r o)
      text none = unfold forward_text in s
      text (some t) =
          unfold forward_text in
          written_chunk r t (write_client r.client t) h s
            (write_all-IsWritten r.client.answers t r.client.out)

      content : (o : Option Bytes) → Sent (forward_content r o)
      content none = unfold forward_content in (s, h)
      content (some c) =
          unfold forward_content in unfold forward_chunk in text (stream_format_sse 8192 c)

  after-Sent :
      (go : Response → Outcome Response (Response × Bytes)) (o : Step)
      → ((r : Response) → r.headers_sent ≡ true → IsSent r → SentLines (go r))
      → Sent o
      → SentLines (after_process go o)
  after-Sent go (failed r) h s = s
  after-Sent go (fine r) h (s, e) = h r e s

  lines-Sent :
      (n : ℕ) (r : Response) (text : Bytes)
      → r.headers_sent ≡ true
      → IsSent r
      → SentLines (each_line process_line n r text)
  unfolding each_line
  lines-Sent zero r text h s = (s, h)
  lines-Sent (suc n) r text h s = elim (Option-cases (split_line text)) [
    | inl f ↦ rw f (s, h)
    | inr ((line, rest), f) ↦ rw f (
        after-Sent (λ (r' : Response). each_line process_line n r' rest)
          (process_line r (strip_return line)) (λ r' h' s'. lines-Sent n r' rest h' s')
          (line-Sent r (strip_return line) h s))
  ]

  grown-Sent :
      (r : Response) (cap : ℕ) (b : Bool)
      → r.headers_sent ≡ true
      → IsSent r
      → Sent (grown_line realloc r cap b)
  unfolding grown_line
  grown-Sent r cap true h s =
      (record { part = s.part; nothing = s.nothing; headers = s.headers; counted = s.counted }, h)
  grown-Sent r cap false h s = record {
    part = s.part;
    nothing = λ f g. cc;
    headers = s.headers;
    counted = λ f. cc;
  }

  room-Sent :
      (r : Response) (held bytes : ℕ)
      → r.headers_sent ≡ true
      → IsSent r
      → Sent (line_room realloc r held bytes)
  unfolding line_room
  room-Sent r held bytes h s =
      let cap = line_capacity r.line_capacity held bytes in
      elim (Bool-cases (cap == r.line_capacity)) [
        | inl e ↦ simp e (s, h)
        | inr e ↦ simp e (grown-Sent r cap (realloc cap) h s)
      ]

  with_room-Sent :
      (held bytes : Bytes) (o : Step) → Sent o → SentLines (with_room realloc held bytes o)
  unfolding with_room take_bytes
  with_room-Sent held bytes (failed r) s = s
  with_room-Sent held bytes (fine r) (s, h) =
      lines-Sent (suc (length (held ++ bytes))) r (held ++ bytes) h s

  with_headers-Sent :
      (held bytes : Bytes) (o : Step) → Sent o → SentLines (with_headers realloc held bytes o)
  unfolding with_headers
  with_headers-Sent held bytes (failed r) s = s
  with_headers-Sent held bytes (fine r) (s, h) =
      with_room-Sent held bytes (line_room realloc r (length held) (length bytes))
        (room-Sent r (length held) (length bytes) h s)

  send-Sent : (r : Response) → r.error ≡ false → IsSent r → Sent (send_headers r)
  unfolding send_headers
  send-Sent r e s = elim (Bool-cases r.headers_sent) [
    | inl h ↦ simp h (s, refl)
    | inr h ↦ simp h (
        written_headers r (write_client r.client sse_headers) h (s.nothing h e) e s
          (write_all-IsWritten r.client.answers sse_headers r.client.out))
  ]

  callback-Sent :
      (r : Response) (held bytes : Bytes)
      → IsSent r
      → SentLines (write_callback realloc (r, held) bytes)
  unfolding write_callback
  callback-Sent r held bytes s = elim (Bool-cases r.error) [
    | inl e ↦ simp e s
    | inr e ↦ simp e (with_headers-Sent held bytes (send_headers r) (send-Sent r e s))
  ]

  then-Sent :
      (go : Response → Bytes → Bool × Response) (o : Outcome Response (Response × Bytes))
      → ((r : Response) (held : Bytes) → IsSent r → IsSent (go r held).1)
      → SentLines o
      → IsSent (then_perform realloc go o).1
  then-Sent go (failed r) h s = s
  then-Sent go (fine (r, held)) h (s, e) = h r held s

  perform-IsSent :
      (pieces : List Bytes) (r : Response) (held : Bytes)
      → IsSent r
      → IsSent (perform realloc pieces r held).1
  unfolding perform
  perform-IsSent [] r held s = s
  perform-IsSent (piece ∷ pieces) r held s =
      then-Sent (perform realloc pieces) (write_callback realloc (r, held) piece)
        (λ r' held' s'. perform-IsSent pieces r' held' s') (callback-Sent r held piece s)

-- By the result: 1 with the headers first, and -1 with a part of the headers at most.
abbrev pub Answer : Processed → Type 0
Answer p = elim p.streamed [
  | true ↦ (rest : Bytes) × (p.client.out ≡ sse_headers ++ rest)
  | false ↦ (rest : Bytes) × (p.client.out ++ rest ≡ sse_headers)
]

end-Answer : (r : Response) → r.headers_sent ≡ true → IsSent r → Answer (end_stream r)
unfolding end_stream
end-Answer r h s =
    let (rest, e) = s.headers h in
    let w = write_all-IsWritten r.client.answers sse_done r.client.out in
    (
      rest ++ w.done,
      w.written ∙ ap (λ (x : Bytes). x ++ w.done) e ∙ append_assoc sse_headers rest w.done,
    )

if-Answer : (a b : Processed) (t : Bool) → Answer a → Answer b → Answer (if t then a else b)
if-Answer a b true p q = p
if-Answer a b false p q = q

finish-Answer :
    (before : ℕ) (result : Bool) (http_code : ℕ) (o : Bool × Response)
    → IsSent o.1
    → Answer (finish_stream before result http_code o)
unfolding finish_stream
finish-Answer before result http_code (done, r) s = elim (Bool-cases r.headers_sent) [
  | inl h ↦ simp h (end-Answer r h s)
  | inr h ↦ simp h (
      if-Answer (not_streamed r.client before)
        (if not (http_code == 200)
          then not_streamed r.client before
          else not_streamed r.client r.bytes_sent)
        (not (done && result) || r.error) (s.part h)
        (if-Answer (not_streamed r.client before) (not_streamed r.client r.bytes_sent)
          (not (http_code == 200)) (s.part h) (s.part h)))
]

new-IsSent : (client : Client) → client.out ≡ [] → IsSent (new_response client)
new-IsSent client n = record {
  part = λ f. (sse_headers, ap (λ (x : Bytes). x ++ sse_headers) n);
  nothing = λ f g. n;
  headers = λ f. cc;
  counted = λ f. ap length (sym n);
}

module _ (u : Setup) (respond : Bytes → Bytes → Transfer) where
  refused-Answer :
      (client : Client) (before : ℕ) → client.out ≡ [] → Answer (not_streamed client before)
  refused-Answer client before n = (sse_headers, ap (λ (x : Bytes). x ++ sse_headers) n)

  body-Answer :
      (client : Client) (before : ℕ) (o : Option Bytes)
      → client.out ≡ []
      → Answer (transfer_body u respond client before o)
  unfolding transfer_body
  body-Answer client before none n = refused-Answer client before n
  body-Answer client before (some body) n =
      let t = respond (request_url u.api.api_base) body in
      let o = perform u.malloc t.pieces (new_response client) [] in
      if-Answer (finish_stream before t.result t.http_code o) (not_streamed client before)
        (u.malloc 4096)
        (finish-Answer before t.result t.http_code o
          (perform-IsSent u.malloc t.pieces (new_response client) [] (new-IsSent client n)))
        (refused-Answer client before n)

  easy-Answer :
      (client : Client) (before : ℕ) (prompt model : Option Bytes) (max_tokens : ℤ) (o : Option ℕ)
      → client.out ≡ []
      → Answer (with_easy u respond client before prompt model max_tokens o)
  unfolding with_easy
  easy-Answer client before prompt model max_tokens none n = refused-Answer client before n
  easy-Answer client before prompt model max_tokens (some easy) n =
      body-Answer client before
        (process_body u.print (or_text prompt (codes "Hello")) (or_text model u.api.default_model)
          (token_limit max_tokens))
        n

  key-Answer :
      (client : Client) (before : ℕ) (prompt model : Option Bytes) (max_tokens : ℤ)
      (o : Option Bytes)
      → client.out ≡ []
      → Answer (with_key u respond client before prompt model max_tokens o)
  unfolding with_key
  key-Answer client before prompt model max_tokens none n = refused-Answer client before n
  key-Answer client before prompt model max_tokens (some key) n =
      easy-Answer client before prompt model max_tokens u.curl_easy_init n

  -- For a client that has got nothing yet, whatever its socket answers, the API sends and memory there is: if the result is 1,
  -- then the client has the response headers and what follows them, and if it is -1, then it has got no
  -- more than a part of the headers, so no event was sent.
  pub process-Answer :
      (client : Client) (before : ℕ) (prompt model : Option Bytes) (max_tokens : ℤ)
      → client.out ≡ []
      → Answer (backend_process u respond client before prompt model max_tokens)
  unfolding backend_process
  process-Answer client before prompt model max_tokens n =
      key-Answer client before prompt model max_tokens u.api.api_key n
