-- ===== src/Daemon/Streaming/Chunks.antt =====
-- streaming.c, `stream_next_message`: the messages of a stream until there are no more.
use mod_socket_handoff.Base.{
  ℕ, zero, suc, ◌+◌, ◌-◌, ◌^◌, ◌%◌, ◌≤◌, ◌<◌, ◌≡◌, ◌≢◌, refl, sym, ap, ◌∙◌, true, false, Option,
  some, none, List, [], ◌∷◌, ◌++◌, drop-drop, take-all, Bytes, arith, length, take, drop,
  length-take, length-drop, Bool-cases, inl, inr, ltb, ltb→lt, le→ltb, ne→==, ◌==◌, if◌then◌else◌,
}
use mod_socket_handoff.Base.Int.{ℤ}
use mod_socket_handoff.Daemon.Streaming.{
  Connection, look_back, chunk_size, remaining, next_chunk, stream_next_message, demo_messages,
  greeting, user_message, stream_start,
}

look_back_le : (start : Bytes) (i : ℕ) → look_back start i ≤ i
unfolding look_back
look_back_le start zero = omega arith
look_back_le start (suc i) = ground (arith, look_back_le start i)

word_bounds :
    (i left : ℕ)
    → i ≤ 150
    → 150 < left
    → let n = if ltb 0 i then i + 1 else 150 in (1 ≤ n) × (n ≤ left) × (n ≤ 151)
word_bounds i left h l = ground arith

-- A chunk makes progress, does not read beyond the text and fits in `llm_chunk_buf` (214 bytes).
chunk_bounds :
    (start : Bytes) (left : ℕ)
    → left ≢ 0
    → (1 ≤ chunk_size start left) × (chunk_size start left ≤ left) × (chunk_size start left ≤ 151)
unfolding chunk_size
chunk_bounds start left h = elim (Bool-cases (ltb left 150)) [
  | inl t ↦ rw (t, le→ltb left left (omega arith)) (ground arith)
  | inr t ↦ rw t (elim (Bool-cases (ltb 150 left)) [
    | inl u ↦
        rw u (word_bounds (look_back start 150) left (look_back_le start 150) (ltb→lt 150 left u))
    | inr u ↦ rw u (ground arith)
  ])
]

abbrev collect :
    Option Bytes → Connection → List Bytes × Option Connection → List Bytes × Option Connection
collect none conn rest = ([], some conn)
collect (some m) conn rest = (m ∷ rest.0, rest.1)

-- The messages until NULL, of which there are fewer than `fuel`, and the connection then.
abbrev pub messages :
    (Connection → Option Bytes × Connection) → ℕ → Connection → List Bytes × Option Connection
messages next zero conn = ([], none)
messages next (suc fuel) conn =
    collect (next conn).0 (next conn).1 (messages next fuel (next conn).1)

messages-next :
    (next : Connection → Option Bytes × Connection) (fuel : ℕ) (conn : Connection)
    (p : Option Bytes × Connection)
    → next conn ≡ p
    → messages next (suc fuel) conn ≡ collect p.0 p.1 (messages next fuel p.1)
messages-next next fuel conn p e =
    ap (λ (q : Option Bytes × Connection). collect q.0 q.1 (messages next fuel q.1)) e

abbrev pub concat : List Bytes → Bytes
concat [] = []
concat (xs ∷ xss) = xs ++ concat xss

pub data Sized : List Bytes → Type 0 where
  none_left : Sized []
  one_more :
      (m : Bytes) (ms : List Bytes) → 1 ≤ length m → length m ≤ 151 → Sized ms → Sized (m ∷ ms)

-- The response is in its buffer.
pub record IsReady (conn : Connection) : Type 0 where
  pub llm : conn.use_llm_response ≡ true
  pub started : conn.llm_response_pos ≤ conn.handoff_len
  pub inside : conn.handoff_len ≤ length conn.handoff_buf
  pub object : conn.handoff_len < 2 ^ 63

abbrev pub response : Connection → Bytes
response conn =
    take (conn.handoff_len - conn.llm_response_pos) (drop conn.llm_response_pos conn.handoff_buf)

next-eq :
    (conn : Connection)
    → next_chunk conn ≡ (
        let n = chunk_size (drop conn.llm_response_pos conn.handoff_buf) (remaining conn) in
        if remaining conn == 0 then (none, conn) else (
          some (take n (drop conn.llm_response_pos conn.handoff_buf)),
          record conn {
            llm_response_pos = (conn.llm_response_pos + n) % 2 ^ 64;
            stream_index = conn.stream_index + 1;
          },
        ))
unfolding next_chunk
next-eq conn = refl

-- The connection after a chunk of `n` bytes.
abbrev past : Connection → ℕ → Connection
past conn n = record conn {
  llm_response_pos = conn.llm_response_pos + n;
  stream_index = conn.stream_index + 1;
}

abbrev unsent : Connection → ℕ
unsent conn = conn.handoff_len - conn.llm_response_pos

abbrev next_size : Connection → ℕ
next_size conn = chunk_size (drop conn.llm_response_pos conn.handoff_buf) (unsent conn)

remaining-eq : (conn : Connection) → IsReady conn → remaining conn ≡ unsent conn
remaining-eq conn r = omega (arith, r.started, r.object)

next_none : (conn : Connection) → IsReady conn → unsent conn ≡ 0 → next_chunk conn ≡ (none, conn)
next_none conn r e = next-eq conn ∙ rw (remaining-eq conn r, e) refl

next_some :
    (conn : Connection)
    → IsReady conn
    → unsent conn ≢ 0
    → next_chunk conn ≡ (
      some (take (next_size conn) (drop conn.llm_response_pos conn.handoff_buf)),
      past conn (next_size conn),
    )
next_some conn r h =
    let b = chunk_bounds (drop conn.llm_response_pos conn.handoff_buf) (unsent conn) h in
    let e : (conn.llm_response_pos + next_size conn) % 2 ^ 64
        ≡ conn.llm_response_pos + next_size conn =
      omega (arith, b, r.started, r.object) in
    next-eq conn ∙ rw (remaining-eq conn r, ne→== (unsent conn) 0 h, e) refl

past-IsReady :
    (conn : Connection) → IsReady conn → unsent conn ≢ 0 → IsReady (past conn (next_size conn))
past-IsReady conn r h =
    let b = chunk_bounds (drop conn.llm_response_pos conn.handoff_buf) (unsent conn) h in
    record {
      llm = r.llm;
      started = omega (arith, b, r.started);
      inside = r.inside;
      object = r.object;
    }

take-split : (n m : ℕ) (xs : Bytes) → n ≤ m → take n xs ++ take (m - n) (drop n xs) ≡ take m xs
take-split zero m xs h = ap (λ (k : ℕ). take k xs) {x = m - 0} (omega arith)
take-split (suc n) zero xs h = absurd (omega arith)
take-split (suc n) (suc m) [] h = take-all (suc m - suc n) [] (omega arith)
take-split (suc n) (suc m) (x ∷ xs) h =
    ap (λ (k : ℕ). x ∷ (take n xs ++ take k (drop n xs))) {x = suc m - suc n} {y = m - n}
      (omega arith)
    ∙ ap (◌∷◌ x) (take-split n m xs (omega arith))

rest-lem :
    (pos n left len : ℕ) (buffer : Bytes)
    → n ≤ left
    → left ≡ len - pos
    → take n (drop pos buffer) ++ take (len - (pos + n)) (drop (pos + n) buffer)
      ≡ take left (drop pos buffer)
rest-lem pos n left len buffer h e =
    ap (λ (xs : Bytes). take n (drop pos buffer) ++ take (len - (pos + n)) xs)
      (sym (drop-drop n pos buffer))
    ∙ ap (λ (k : ℕ). take n (drop pos buffer) ++ take k (drop n (drop pos buffer))) {y = left - n}
        (omega arith)
    ∙ take-split n left (drop pos buffer) h

module _ (print : ℤ → Bytes) where
  message-eq :
      (conn : Connection)
      → conn.use_llm_response ≡ true
      → stream_next_message print conn ≡ next_chunk conn
  unfolding stream_next_message
  message-eq conn h = simp h refl

  pub record IsComplete (conn : Connection) (out : List Bytes × Option Connection) : Type 0 where
    pub text : concat out.0 ≡ response conn
    pub sized : Sized out.0
    pub ended :
        (conn' : Connection) × (out.1 ≡ some conn') × (conn'.llm_response_pos ≡ conn.handoff_len)

  -- With `use_llm_response` set, which no code of the daemon does, a response in its buffer is streamed to its end: with any fuel above the number of bytes left
  -- `stream_next_message` comes to return NULL, the messages until then are the bytes left when
  -- put one after the other, and each has between 1 and 151 bytes, so that the 214 of `llm_chunk_buf`
  -- hold it with its NUL.
  pub messages-IsComplete :
      (fuel : ℕ) (conn : Connection)
      → IsReady conn
      → conn.handoff_len - conn.llm_response_pos < fuel
      → IsComplete conn (messages (stream_next_message print) fuel conn)
  messages-IsComplete zero conn r h = absurd (omega arith)
  messages-IsComplete (suc fuel) conn r h = elim (Bool-cases (unsent conn == 0)) [
    | inl t ↦
        let z : unsent conn ≡ 0 = ground arith in
        rw
          (messages-next (stream_next_message print) fuel conn (none, conn)
            (message-eq conn r.llm ∙ next_none conn r z))
          (record {
            text = sym (ap (λ (n : ℕ). take n (drop conn.llm_response_pos conn.handoff_buf)) z);
            sized = none_left;
            ended = (conn, refl, omega (arith, r.started));
          })
    | inr t ↦
        let z : unsent conn ≢ 0 = ground arith in
        let start = drop conn.llm_response_pos conn.handoff_buf in
        let n = next_size conn in
        let b = chunk_bounds start (unsent conn) z in
        let i = messages-IsComplete fuel (past conn n) (past-IsReady conn r z) (omega (arith, b)) in
        rw
          (messages-next (stream_next_message print) fuel conn (some (take n start), past conn n)
            (message-eq conn r.llm ∙ next_some conn r z))
          (record {
            text =
                ap (λ (xs : Bytes). take n start ++ xs) i.text
                ∙ rest-lem conn.llm_response_pos n (unsent conn) conn.handoff_len conn.handoff_buf
                    b.1 (omega arith);
            sized =
                one_more (take n start) (messages (stream_next_message print) fuel (past conn n)).0
                  (omega (
                    arith,
                    length-take n start,
                    length-drop conn.llm_response_pos conn.handoff_buf,
                    b,
                    r.inside,
                  ))
                  (omega (arith, length-take n start, b)) i.sized;
            ended = i.ended;
          })
  ]

-- The state of a connection that streams the demo messages.
abbrev pub demo : Option Bytes → ℤ → ℕ → Connection
demo prompt user_id index = record {
  prompt = prompt;
  user_id = user_id;
  handoff_buf = [];
  handoff_len = 0;
  stream_index = index;
  use_llm_response = false;
  llm_response_pos = 0;
}

-- In demo mode `stream_next_message` returns, after `stream_start` in any state, the greeting with the
-- prompt, the message with the user id, the 16 demo messages in order, and then NULL: 18 in all.
pub demo-messages :
    (print : ℤ → Bytes) (prompt : Option Bytes) (user_id : ℤ) (index : ℕ)
    → let conn = demo prompt user_id in
      messages (stream_next_message print) 19 (stream_start (conn index))
      ≡ (greeting print (conn 0) ∷ user_message print (conn 1) ∷ demo_messages, some (conn 18))
unfolding stream_next_message stream_start
demo-messages print prompt user_id index = refl
