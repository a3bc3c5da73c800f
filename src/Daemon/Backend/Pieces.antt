-- ===== src/Daemon/Backend/Pieces.antt =====
-- backend_openai.c, `write_callback`: how libcurl cuts a response into pieces does not matter.
use mod_socket_handoff.Base.{
  ℕ, zero, suc, ◌≡◌, refl, sym, ap, ◌∙◌, Bool, true, false, Option, none, some, List, [], ◌∷◌, ◌++◌,
  Bytes, length, append-nil, Option-cases, Bool-cases, inl, inr, ◌==◌,
}
use mod_socket_handoff.Daemon.Streaming.{stream_format_sse}
use mod_socket_handoff.Daemon.Streaming.Chunks.{concat}
use mod_socket_handoff.Daemon.Loop.Handlers.{sse_headers}
use mod_socket_handoff.Daemon.Curl.Content.{line_content}
use mod_socket_handoff.Daemon.Curl.Lines.{
  Outcome, failed, fine, split_line, strip_return, each_line, take_bytes, take_pieces,
  after_process, then_take, line_capacity,
}
use mod_socket_handoff.Daemon.Curl.Lines.Chunks.{pieces-concat}
use mod_socket_handoff.Daemon.Backend.{
  Client, Response, Step, write_client, headers_written, send_headers, chunk_written, forward_text,
  forward_chunk, forward_content, process_line, grown_line, line_room, with_room, with_headers,
  write_callback, then_perform, perform,
}

-- The same outcome with another state.
abbrev over : {S : Type 0} → (S → S) → Outcome S S → Outcome S S
over f (failed s) = failed (f s)
over f (fine s) = fine (f s)

abbrev over_first : {S : Type 0} → (S → S) → Outcome S (S × Bytes) → Outcome S (S × Bytes)
over_first f (failed s) = failed (f s)
over_first f (fine (s, text)) = fine (f s, text)

module _ {S : Type 0} (process : S → Bytes → Outcome S S) where
  -- A change of the state that the processing of a line does not look at.
  each_line-over :
      (f : S → S)
      → ((s : S) (line : Bytes) → process (f s) line ≡ over f (process s line))
      → (n : ℕ) (s : S) (text : Bytes)
      → each_line process n (f s) text ≡ over_first f (each_line process n s text)
  unfolding each_line
  each_line-over f h zero s text = refl
  each_line-over f h (suc n) s text = elim (Option-cases (split_line text)) [
    | inl e ↦ rw e refl
    | inr ((line, rest), e) ↦
        rw (e, h s (strip_return line))
          (processed _ (process s (strip_return line)) (λ s'. each_line-over f h n s' rest))
  ]
    where
      processed :
          (go : S → Outcome S (S × Bytes)) (o : Outcome S S)
          → ((s' : S) → go (f s') ≡ over_first f (go s'))
          → after_process go (over f o) ≡ over_first f (after_process go o)
      processed go (failed s') k = refl
      processed go (fine s') k = k s'

  take_bytes-over :
      (f : S → S)
      → ((s : S) (line : Bytes) → process (f s) line ≡ over f (process s line))
      → (s : S) (held bytes : Bytes)
      → take_bytes process (f s, held) bytes ≡ over_first f (take_bytes process (s, held) bytes)
  unfolding take_bytes
  take_bytes-over f h s held bytes =
      each_line-over f h (suc (length (held ++ bytes))) s (held ++ bytes)

-- Where an outcome is fine, its state has the property.
abbrev Holds : {S : Type 0} → (S → Type 0) → Outcome S S → Type 0
Holds P (failed s) = Unit
Holds P (fine s) = P s

abbrev HoldsFirst : {S : Type 0} → (S → Type 0) → Outcome S (S × Bytes) → Type 0
HoldsFirst P (failed s) = Unit
HoldsFirst P (fine (s, text)) = P s

module _ {S : Type 0} (process : S → Bytes → Outcome S S) (P : S → Type 0)
    (kept : (s : S) (line : Bytes) → P s → Holds P (process s line)) where
  each_line-HoldsFirst :
      (n : ℕ) (s : S) (text : Bytes) → P s → HoldsFirst P (each_line process n s text)
  unfolding each_line
  each_line-HoldsFirst zero s text p = p
  each_line-HoldsFirst (suc n) s text p = elim (Option-cases (split_line text)) [
    | inl e ↦ rw e p
    | inr ((line, rest), e) ↦ rw e (
        processed _ (process s (strip_return line)) (λ s' p'. each_line-HoldsFirst n s' rest p')
          (kept s (strip_return line) p))
  ]
    where
      processed :
          (go : S → Outcome S (S × Bytes)) (o : Outcome S S)
          → ((s' : S) → P s' → HoldsFirst P (go s'))
          → Holds P o
          → HoldsFirst P (after_process go o)
      processed go (failed s') k h = tt
      processed go (fine s') k h = k s' h

  take_bytes-HoldsFirst :
      (s : S) (held bytes : Bytes) → P s → HoldsFirst P (take_bytes process (s, held) bytes)
  unfolding take_bytes
  take_bytes-HoldsFirst s held bytes p =
      each_line-HoldsFirst (suc (length (held ++ bytes))) s (held ++ bytes) p

-- All but the capacity of the line buffer.
abbrev pub without_capacity : Response → Response
without_capacity r = record r { line_capacity = 0 }

written-over :
    (r : Response) (text : Bytes) (o : Bool × Client)
    → chunk_written (without_capacity r) text o ≡ over without_capacity (chunk_written r text o)
unfolding chunk_written
written-over r text (true, client) = refl
written-over r text (false, client) = refl

text-over :
    (r : Response) (o : Option Bytes)
    → forward_text (without_capacity r) o ≡ over without_capacity (forward_text r o)
unfolding forward_text
text-over r none = refl
text-over r (some text) = written-over r text (write_client r.client text)

content-over :
    (r : Response) (o : Option Bytes)
    → forward_content (without_capacity r) o ≡ over without_capacity (forward_content r o)
unfolding forward_content forward_chunk
content-over r none = refl
content-over r (some content) = text-over r (stream_format_sse 8192 content)

process-over :
    (r : Response) (line : Bytes)
    → process_line (without_capacity r) line ≡ over without_capacity (process_line r line)
unfolding process_line
process-over r line = content-over r (line_content line)

-- With no error, and with the headers sent.
record IsReady (r : Response) : Type 0 where
  intact : r.error ≡ false
  begun : r.headers_sent ≡ true

written-Holds :
    (r : Response) (text : Bytes) (o : Bool × Client)
    → IsReady r
    → Holds IsReady (chunk_written r text o)
unfolding chunk_written
written-Holds r text (true, client) k = record { intact = k.intact; begun = k.begun }
written-Holds r text (false, client) k = tt

text-Holds : (r : Response) (o : Option Bytes) → IsReady r → Holds IsReady (forward_text r o)
unfolding forward_text
text-Holds r none k = tt
text-Holds r (some text) k = written-Holds r text (write_client r.client text) k

content-Holds : (r : Response) (o : Option Bytes) → IsReady r → Holds IsReady (forward_content r o)
unfolding forward_content forward_chunk
content-Holds r none k = k
content-Holds r (some content) k = text-Holds r (stream_format_sse 8192 content) k

process-Holds : (r : Response) (line : Bytes) → IsReady r → Holds IsReady (process_line r line)
unfolding process_line
process-Holds r line k = content-Holds r (line_content line) k

sent-Holds :
    (r : Response) (o : Bool × Client) → r.error ≡ false → Holds IsReady (headers_written r o)
unfolding headers_written
sent-Holds r (true, client) e = record { intact = e; begun = refl }
sent-Holds r (false, client) e = tt

headers-Holds : (r : Response) → r.error ≡ false → Holds IsReady (send_headers r)
unfolding send_headers
headers-Holds r e = elim (Bool-cases r.headers_sent) [
  | inl t ↦ simp t (record { intact = e; begun = t })
  | inr t ↦ simp t (sent-Holds r (write_client r.client sse_headers) e)
]

abbrev ends : Outcome Response (Response × Bytes) → Bool × Response
ends (failed r) = (false, r)
ends (fine (r, held)) = (true, r)

-- What comes of the response: whether all pieces were taken, and all but the capacity of the line buffer.
abbrev pub apart : Bool × Response → Bool × Response
apart (taken, r) = (taken, without_capacity r)

module _ (realloc : ℕ → Bool) (enough : (n : ℕ) → realloc n ≡ true) where
  room :
      (r : Response) (held bytes : ℕ)
      → (cap : ℕ) × (line_room realloc r held bytes ≡ fine (record r { line_capacity = cap }))
  unfolding line_room grown_line
  room r held bytes =
      let cap = line_capacity r.line_capacity held bytes in
      elim (Bool-cases (cap == r.line_capacity)) [
        | inl t ↦ (r.line_capacity, rw t refl)
        | inr t ↦ (cap, rw (t, enough cap) refl)
      ]

  called :
      (r : Response) (held bytes : Bytes)
      → IsReady r
      → (cap : ℕ) × (write_callback realloc (r, held) bytes
          ≡ take_bytes process_line (record r { line_capacity = cap }, held) bytes)
  unfolding write_callback with_headers with_room send_headers
  called r held bytes k =
      let (cap, e) = room r (length held) (length bytes) in (cap, simp (k.intact, k.begun, e) refl)

  -- One more piece in front.
  next_piece :
      (r : Response) (held piece : Bytes) (pieces : List Bytes)
      → IsReady r
      → ((s : Response) (text : Bytes)
          → IsReady s
          → apart (perform realloc pieces s text)
            ≡ ends (take_pieces process_line (without_capacity s, text) pieces))
      → apart (perform realloc (piece ∷ pieces) r held)
        ≡ ends (take_pieces process_line (without_capacity r, held) (piece ∷ pieces))
  unfolding perform
  next_piece r held piece pieces k h =
      let (cap, e) = called r held piece k in
      let r' : Response = record r { line_capacity = cap } in
      ap
        (λ (o : Outcome Response (Response × Bytes)).
          apart (then_perform realloc (perform realloc pieces) o))
        e
      ∙ each (take_bytes process_line (r', held) piece) (
          take_bytes-HoldsFirst process_line IsReady process-Holds r' held piece
            (record { intact = k.intact; begun = k.begun }))
      ∙ ap
          (λ (o : Outcome Response (Response × Bytes)).
            ends (then_take (λ (st : Response × Bytes). take_pieces process_line st pieces) o))
          (sym (take_bytes-over process_line without_capacity process-over r' held piece))
    where
      each :
          (o : Outcome Response (Response × Bytes))
          → HoldsFirst IsReady o
          → apart (then_perform realloc (perform realloc pieces) o)
            ≡ ends (
                then_take
                  (λ (st : Response × Bytes). take_pieces process_line st pieces)
                  (over_first without_capacity o))
      each (failed s) g = refl
      each (fine (s, text)) g = h s text g

  performed :
      (pieces : List Bytes) (r : Response) (held : Bytes)
      → IsReady r
      → apart (perform realloc pieces r held)
        ≡ ends (take_pieces process_line (without_capacity r, held) pieces)
  performed [] r held k = unfold perform in refl
  performed (piece ∷ pieces) r held k =
      next_piece r held piece pieces k (λ s text g. performed pieces s text g)

  ready-concat :
      (r : Response) (held piece : Bytes) (pieces : List Bytes)
      → IsReady r
      → apart (perform realloc (piece ∷ pieces) r held)
        ≡ apart (perform realloc (concat (piece ∷ pieces) ∷ []) r held)
  ready-concat r held piece pieces k =
      let whole = concat (piece ∷ pieces) in
      performed (piece ∷ pieces) r held k
      ∙ ap ends (
          pieces-concat process_line (without_capacity r, held) piece pieces
          ∙ ap (take_bytes process_line (without_capacity r, held)) (sym (append-nil whole))
          ∙ sym (pieces-concat process_line (without_capacity r, held) whole []))
      ∙ sym (performed (whole ∷ []) r held k)

  callback_failed :
      (r r1 : Response) (held bytes : Bytes)
      → r.error ≡ false
      → send_headers r ≡ failed r1
      → write_callback realloc (r, held) bytes ≡ failed r1
  unfolding write_callback with_headers
  callback_failed r r1 held bytes e f = simp (e, f) refl

  headers_ready : (r : Response) → r.headers_sent ≡ true → send_headers r ≡ fine r
  unfolding send_headers
  headers_ready r t = simp t refl

  callback_fine :
      (r r1 : Response) (held bytes : Bytes)
      → r.error ≡ false
      → send_headers r ≡ fine r1
      → IsReady r1
      → write_callback realloc (r, held) bytes ≡ write_callback realloc (r1, held) bytes
  unfolding write_callback with_headers
  callback_fine r r1 held bytes e f k = simp (e, f, k.intact, headers_ready r1 k.begun) refl

  callback_error :
      (r : Response) (held bytes : Bytes)
      → r.error ≡ true
      → write_callback realloc (r, held) bytes ≡ failed r
  unfolding write_callback
  callback_error r held bytes e = simp e refl

  -- A first call that comes to the same.
  first_call :
      (r : Response) (held piece : Bytes) (pieces : List Bytes)
      (o : Outcome Response (Response × Bytes))
      → write_callback realloc (r, held) piece ≡ o
      → perform realloc (piece ∷ pieces) r held ≡ then_perform realloc (perform realloc pieces) o
  unfolding perform
  first_call r held piece pieces o e = ap (then_perform realloc (perform realloc pieces)) e

  from_headers :
      (r : Response) (held piece : Bytes) (pieces : List Bytes) (o : Step)
      → r.error ≡ false
      → send_headers r ≡ o
      → Holds IsReady o
      → apart (perform realloc (piece ∷ pieces) r held)
        ≡ apart (perform realloc (concat (piece ∷ pieces) ∷ []) r held)
  from_headers r held piece pieces (failed r1) e f k =
      let whole = concat (piece ∷ pieces) in
      ap apart (first_call r held piece pieces (failed r1) (callback_failed r r1 held piece e f))
      ∙ sym
          (ap apart (first_call r held whole [] (failed r1) (callback_failed r r1 held whole e f)))
  from_headers r held piece pieces (fine r1) e f k =
      let whole = concat (piece ∷ pieces) in
      ap apart (same_call piece pieces)
      ∙ ready-concat r1 held piece pieces k
      ∙ sym (ap apart (same_call whole []))
    where
      same_call :
          (p : Bytes) (ps : List Bytes)
          → perform realloc (p ∷ ps) r held ≡ perform realloc (p ∷ ps) r1 held
      same_call p ps =
          first_call r held p ps (write_callback realloc (r1, held) p)
            (callback_fine r r1 held p e f k)
          ∙ sym (first_call r1 held p ps (write_callback realloc (r1, held) p) refl)

  -- With memory, however libcurl cuts a response of at least one piece: whether all of it is taken, what the client gets and
  -- which of its answers are left, the bytes and the events counted, the error and whether the headers were
  -- sent are what they are for one call of `write_callback` with all the bytes. Only the capacity of
  -- the line buffer may differ.
  pub perform-concat :
      (r : Response) (held piece : Bytes) (pieces : List Bytes)
      → apart (perform realloc (piece ∷ pieces) r held)
        ≡ apart (perform realloc (concat (piece ∷ pieces) ∷ []) r held)
  perform-concat r held piece pieces = elim (Bool-cases r.error) [
    | inl t ↦
        let whole = concat (piece ∷ pieces) in
        ap apart (first_call r held piece pieces (failed r) (callback_error r held piece t))
        ∙ sym (ap apart (first_call r held whole [] (failed r) (callback_error r held whole t)))
    | inr t ↦ from_headers r held piece pieces (send_headers r) t refl (headers-Holds r t)
  ]
