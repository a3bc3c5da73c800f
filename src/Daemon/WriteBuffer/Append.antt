-- ===== src/Daemon/WriteBuffer/Append.antt =====
-- write_buffer.c, `write_buffer_append`: a buffer is the queue of the bytes that are pending.
use mod_socket_handoff.Base.{
  ℕ, ◌+◌, ◌-◌, ◌^◌, ◌≤◌, ◌<◌, ◌≡◌, ◌≢◌, refl, ap, ltb→le, if◌then◌else◌, ◌∙◌, ◌++◌, Bytes, arith,
  length, Bool-cases, Option-cases, inl, inr, ltb,
}
use mod_socket_handoff.Daemon.WriteBuffer.{
  WriteBuffer, Allocator, Status, ok, no_memory, full, max_size, add_size, sub_size, pending, store,
  grow_to, pending_capacity, append_pending, compact, raised_capacity, append_compacted,
  write_buffer_append, write_at, resize,
}
use mod_socket_handoff.Daemon.WriteBuffer.Blocks.{
  slice, slice-write_at, length-write_at, slice-move, length-slice, slice-resize, length-resize,
}

-- The record describes its block, and the block is within the limit.
pub record IsValid (wb : WriteBuffer) : Type 0 where
  pub ordered : wb.tail ≤ wb.head
  pub inside : wb.head ≤ wb.capacity
  pub sized : length wb.buffer ≡ wb.capacity
  pub limited : wb.capacity ≤ max_size

-- The bytes between `tail` and `head`.
abbrev pub contents : WriteBuffer → Bytes
contents wb = slice wb.tail (wb.head - wb.tail) wb.buffer

-- An object of C has at most PTRDIFF_MAX bytes.
abbrev pub max_object : ℕ
max_object = 2 ^ 63

pub pending-eq : {wb : WriteBuffer} → IsValid wb → pending wb ≡ wb.head - wb.tail
pending-eq v = omega arith

-- `bytes` went to the end of the queue, or nothing did.
pub record IsAppended (wb : WriteBuffer) (bytes : Bytes) (out : Status × WriteBuffer) : Type 0 where
  pub valid : IsValid out.1
  pub accepted : out.0 ≡ ok → contents out.1 ≡ contents wb ++ bytes
  pub refused : out.0 ≢ ok → contents out.1 ≡ contents wb
  pub written : out.1.bytes_written ≡ wb.bytes_written
  pub flight : out.1.write_pending ≡ wb.write_pending

store-contents :
    (t h : ℕ) (buffer bytes : Bytes)
    → t ≤ h
    → h + length bytes ≤ length buffer
    → length buffer ≤ max_size
    → slice t (add_size h (length bytes) - t) (write_at buffer h bytes)
      ≡ slice t (h - t) buffer ++ bytes
store-contents t h buffer bytes o i l =
    let n = h - t in
    ap (λ (k : ℕ). slice t k (write_at buffer h bytes)) {y = n + length bytes} (omega arith)
    ∙ ap (λ (k : ℕ). slice t (n + length bytes) (write_at buffer k bytes)) {y = t + n} (omega arith)
    ∙ slice-write_at t n buffer bytes (omega arith)

store-IsAppended :
    (wb : WriteBuffer) (bytes : Bytes)
    → IsValid wb
    → wb.head + length bytes ≤ wb.capacity
    → IsAppended wb bytes (store bytes wb)
unfolding store
store-IsAppended wb bytes v h = record {
  valid = record {
    ordered = omega arith;
    inside = omega arith;
    sized = omega (arith, length-write_at wb.head wb.buffer bytes);
    limited = v.limited;
  };
  accepted =
      λ _. store-contents wb.tail wb.head wb.buffer bytes v.ordered (omega arith) (omega arith);
  refused = λ n. absurd (n refl);
  written = refl;
  flight = refl;
}

-- An unchanged buffer with a refusal.
refuse-IsAppended :
    (wb : WriteBuffer) (bytes : Bytes) (s : Status)
    → IsValid wb
    → s ≢ ok
    → IsAppended wb bytes (s, wb)
refuse-IsAppended wb bytes s v h = record {
  valid = v;
  accepted = λ e. absurd (h e);
  refused = λ _. refl;
  written = refl;
  flight = refl;
}

-- What is an append to `wb'` is one to `wb` with the same contents.
IsAppended-from :
    (wb wb' : WriteBuffer) (bytes : Bytes) (out : Status × WriteBuffer)
    → contents wb' ≡ contents wb
    → wb'.bytes_written ≡ wb.bytes_written
    → wb'.write_pending ≡ wb.write_pending
    → IsAppended wb' bytes out
    → IsAppended wb bytes out
IsAppended-from wb wb' bytes out c w f a = record {
  valid = a.valid;
  accepted = λ e. a.accepted e ∙ ap (λ (xs : Bytes). xs ++ bytes) c;
  refused = λ e. a.refused e ∙ c;
  written = a.written ∙ w;
  flight = a.flight ∙ f;
}

compact-same :
    (t n p : ℕ) (buffer : Bytes)
    → p ≡ n
    → t + n ≤ length buffer
    → slice 0 (p - 0) (if ltb 0 p then write_at buffer 0 (slice t p buffer) else buffer)
      ≡ slice t n buffer
compact-same t n p buffer e h = rw e (elim (Bool-cases (ltb 0 n)) [
  | inl b ↦ rw b (
      ap (λ (k : ℕ). slice 0 k (write_at buffer 0 (slice t n buffer))) {y = n} (omega arith)
      ∙ slice-move t n buffer h)
  | inr b ↦ let z : n ≡ 0 = ground arith in rw z
])

length-compact :
    (t n p : ℕ) (buffer : Bytes)
    → p ≡ n
    → t + n ≤ length buffer
    → length (if ltb 0 p then write_at buffer 0 (slice t p buffer) else buffer) ≡ length buffer
length-compact t n p buffer e h = rw e (elim (Bool-cases (ltb 0 n)) [
  | inl b ↦
      rw b (length-write_at 0 buffer (slice t n buffer) (omega (arith, length-slice t n buffer h)))
  | inr b ↦ rw b
])

record IsCompact (wb wb' : WriteBuffer) : Type 0 where
  valid : IsValid wb'
  same : contents wb' ≡ contents wb
  written : wb'.bytes_written ≡ wb.bytes_written
  flight : wb'.write_pending ≡ wb.write_pending
  start : wb'.head ≡ wb.head - wb.tail

compact-IsCompact : (wb : WriteBuffer) → IsValid wb → IsCompact wb (compact wb)
unfolding compact
compact-IsCompact wb v =
    let n = wb.head - wb.tail in
    let l = length-slice wb.tail n wb.buffer (omega arith) in
    record {
      valid = record {
        ordered = omega arith;
        inside = omega arith;
        sized =
            length-compact wb.tail n (pending wb) wb.buffer (omega arith) (omega arith) ∙ v.sized;
        limited = v.limited;
      };
      same = compact-same wb.tail n (pending wb) wb.buffer (omega arith) (omega arith);
      written = refl;
      flight = refl;
      start = pending-eq v;
    }

module _ (alloc : Allocator) where
  grow_to-IsAppended :
      (n : ℕ) (bytes : Bytes) (wb : WriteBuffer)
      → IsValid wb
      → wb.capacity ≤ n
      → wb.head + length bytes ≤ n
      → IsAppended wb bytes (grow_to alloc n bytes wb)
  unfolding grow_to
  grow_to-IsAppended n bytes wb v c h = elim (Bool-cases (ltb max_size n)) [
    | inl t ↦ rw t (refuse-IsAppended wb bytes full v (λ e. cc))
    | inr t ↦ rw t (elim (Option-cases (alloc.realloc wb.block n)) [
      | inl e ↦ rw e (refuse-IsAppended wb bytes no_memory v (λ f. cc))
      | inr (p, e) ↦ rw e (
          let wb' : WriteBuffer = record wb {
            block = p;
            buffer = resize alloc.junk wb.buffer n;
            capacity = n;
          } in
          IsAppended-from wb wb' bytes (store bytes wb')
            (slice-resize alloc.junk n wb.tail (wb.head - wb.tail) wb.buffer (omega arith)
              (omega arith))
            refl refl
            (store-IsAppended wb' bytes
              (record {
                ordered = v.ordered;
                inside = omega arith;
                sized = length-resize alloc.junk n wb.buffer (omega arith);
                limited = ltb→le max_size n t;
              })
              h))
    ])
  ]

  pending-IsAppended :
      (bytes : Bytes) (wb : WriteBuffer)
      → IsValid wb
      → length bytes ≤ max_size
      → wb.capacity < wb.head + length bytes
      → IsAppended wb bytes (append_pending alloc bytes wb)
  unfolding append_pending
  pending-IsAppended bytes wb v l h =
      grow_to-IsAppended (pending_capacity (length bytes) wb) bytes wb v (ground arith)
        (ground arith)

  compacted-IsAppended :
      (bytes : Bytes) (wb : WriteBuffer)
      → IsValid wb
      → length bytes ≤ max_size
      → IsAppended wb bytes (append_compacted alloc bytes wb)
  unfolding append_compacted
  compacted-IsAppended bytes wb v l =
      elim (Bool-cases (ltb wb.capacity (add_size wb.head (length bytes)))) [
        | inl t ↦ rw t (
            grow_to-IsAppended (raised_capacity (length bytes) wb) bytes wb v (ground arith)
              (ground arith))
        | inr t ↦ rw t (store-IsAppended wb bytes v (ground arith))
      ]

  pub append-eq :
      (wb : WriteBuffer) (bytes : Bytes)
      → write_buffer_append alloc wb bytes ≡ (
          if ltb max_size (add_size (pending wb) (length bytes))
          then (full, wb)
          else if ltb (sub_size wb.capacity wb.head) (length bytes)
          then (if wb.write_pending
              then append_pending alloc bytes wb
              else append_compacted alloc bytes (compact wb))
          else store bytes wb)
  unfolding write_buffer_append
  append-eq wb bytes = refl

  -- No room at the end.
  crowded-IsAppended :
      (wb : WriteBuffer) (bytes : Bytes)
      → IsValid wb
      → length bytes ≤ max_size
      → wb.capacity < wb.head + length bytes
      → IsAppended wb bytes (
          if wb.write_pending
          then append_pending alloc bytes wb
          else append_compacted alloc bytes (compact wb))
  crowded-IsAppended wb bytes v l h = elim (Bool-cases wb.write_pending) [
    | inl t ↦ simp t (pending-IsAppended bytes wb v l h)
    | inr t ↦ simp t (
        let c = compact-IsCompact wb v in
        IsAppended-from wb (compact wb) bytes (append_compacted alloc bytes (compact wb)) c.same
          c.written c.flight (compacted-IsAppended bytes (compact wb) c.valid l))
  ]

  -- On a valid buffer `write_buffer_append` either puts all bytes behind those that are pending, or
  -- reports an error and leaves the pending bytes as they were; in both cases the buffer is valid,
  -- within its limit, and the other fields are kept, whether or not it compacts or grows.
  pub append-IsAppended :
      (wb : WriteBuffer) (bytes : Bytes)
      → IsValid wb
      → length bytes ≤ max_object
      → IsAppended wb bytes (write_buffer_append alloc wb bytes)
  append-IsAppended wb bytes v h =
      rw (append-eq wb bytes)
        (elim (Bool-cases (ltb max_size (add_size (pending wb) (length bytes)))) [
          | inl t ↦ rw t (refuse-IsAppended wb bytes full v (λ e. cc))
          | inr t ↦ rw t (
              let l : length bytes ≤ max_size = ground arith in
              elim (Bool-cases (ltb (sub_size wb.capacity wb.head) (length bytes))) [
                | inl u ↦ rw u (crowded-IsAppended wb bytes v l (ground arith))
                | inr u ↦ rw u (store-IsAppended wb bytes v (ground arith))
              ])
        ])
