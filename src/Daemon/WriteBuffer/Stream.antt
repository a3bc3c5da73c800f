-- ===== src/Daemon/WriteBuffer/Stream.antt =====
-- write_buffer.c, `write_buffer_consume` and `write_buffer_get_next`, and any sequence of calls.
use mod_socket_handoff.Base.{
  ℕ, zero, suc, take-all, ◌+◌, ◌-◌, ◌≤◌, ◌<◌, ◌^◌, min, ◌≡◌, refl, sym, ap, ◌∙◌, Bool, true, false,
  Option, some, none, List, [], ◌∷◌, ◌++◌, append-nil, append_assoc, take-append-drop, Bytes, arith,
  length, take, drop, length-append, length-take, drop-all, Bool-cases, inl, inr, ltb, ◌==◌,
  if◌then◌else◌,
}
use mod_socket_handoff.Daemon.WriteBuffer.{
  WriteBuffer, Allocator, Status, ok, no_memory, full, max_size, pending, add_size,
  write_buffer_append, write_buffer_consume, write_buffer_get_next, write_buffer_set_pending,
}
use mod_socket_handoff.Daemon.WriteBuffer.Blocks.{slice, slice-drop, length-slice}
use mod_socket_handoff.Daemon.WriteBuffer.Append.{
  IsValid, IsAppended, append-IsAppended, contents, max_object, pending-eq,
}

-- `n` bytes, or all that are pending, leave the front of the queue.
record IsConsumed (wb : WriteBuffer) (n : ℕ) (out : ℕ × WriteBuffer) : Type 0 where
  valid : IsValid out.1
  count : out.0 ≡ min n (length (contents wb))
  rest : contents out.1 ≡ drop out.0 (contents wb)
  written : out.1.bytes_written ≡ add_size wb.bytes_written out.0
  flight : out.1.write_pending ≡ wb.write_pending

rest-lem :
    (t h n : ℕ) (drained : Bool) (buffer : Bytes)
    → drained ≡ (add_size t n == h)
    → t ≤ h
    → n ≤ h - t
    → h ≤ length buffer
    → h ≤ max_size
    → slice
        (if drained then 0 else add_size t n)
        ((if drained then 0 else h) - (if drained then 0 else add_size t n))
        buffer
      ≡ drop n (slice t (h - t) buffer)
rest-lem t h n true buffer e o k i l =
    let m : add_size t n ≡ h = ground arith in
    sym (
      drop-all n (slice t (h - t) buffer)
        (omega (arith, length-slice t (h - t) buffer (omega arith))))
rest-lem t h n false buffer e o k i l =
    ap (λ (m : ℕ). slice m (h - m) buffer) {y = t + n} (omega arith)
    ∙ ap (λ (m : ℕ). slice (t + n) m buffer) {x = h - (t + n)} {y = h - t - n} (omega arith)
    ∙ slice-drop t (h - t) n buffer k

consume-IsConsumed :
    (wb : WriteBuffer) (n : ℕ) → IsValid wb → IsConsumed wb n (write_buffer_consume wb n)
unfolding write_buffer_consume
consume-IsConsumed wb n v =
    let k = if ltb (pending wb) n then pending wb else n in
    let l = length-slice wb.tail (wb.head - wb.tail) wb.buffer (omega arith) in
    let b : k ≤ wb.head - wb.tail = ground arith in
    record {
      valid = record {
        ordered = ground arith;
        inside = ground arith;
        sized = v.sized;
        limited = v.limited;
      };
      count = ground (arith, l);
      rest =
          rest-lem wb.tail wb.head k (add_size wb.tail k == wb.head) wb.buffer refl v.ordered b
            (omega arith) (omega arith);
      written = refl;
      flight = refl;
    }

next-eq :
    (wb : WriteBuffer)
    → IsValid wb
    → write_buffer_get_next wb ≡ (if length (contents wb) == 0 then none else some (contents wb))
unfolding write_buffer_get_next
next-eq wb v =
    let l = length-slice wb.tail (wb.head - wb.tail) wb.buffer (omega arith) in
    rw (pending-eq v, l) refl

-- A call of the buffer's owner: queue bytes, mark a write as in flight or not, or take the first
-- bytes that `write_buffer_get_next` shows (all, if it shows fewer).
pub data Call : Type 0 where
  queue : Bytes → Call
  set_pending : Bool → Call
  written : ℕ → Call

-- The buffer with all bytes it accepted and all that were taken.
pub record Traffic : Type 0 where
  pub wb : WriteBuffer
  pub accepted : Bytes
  pub taken : Bytes

abbrev shown : Option Bytes → Bytes
shown none = []
shown (some bytes) = bytes

abbrev credit : Traffic → Bytes → Status × WriteBuffer → Traffic
credit s bytes (ok, wb) = record { wb = wb; accepted = s.accepted ++ bytes; taken = s.taken }
credit s bytes (no_memory, wb) = record s { wb = wb }
credit s bytes (full, wb) = record s { wb = wb }

-- The call Fits in memory.
abbrev pub Fits : Call → Type 0
Fits (queue bytes) = length bytes ≤ max_object
Fits (set_pending b) = Unit
Fits (written n) = Unit

pub record IsConserved (start : WriteBuffer) (s : Traffic) : Type 0 where
  pub valid : IsValid s.wb
  pub bytes : contents start ++ s.accepted ≡ s.taken ++ contents s.wb
  pub counted : s.wb.bytes_written ≡ add_size start.bytes_written (length s.taken)

module _ (alloc : Allocator) where
  abbrev pub call : Traffic → Call → Traffic
  call s (queue bytes) = credit s bytes (write_buffer_append alloc s.wb bytes)
  call s (set_pending b) = record s { wb = write_buffer_set_pending s.wb b }
  call s (written n) = record {
    wb = (write_buffer_consume s.wb n).1;
    accepted = s.accepted;
    taken = s.taken ++ take n (shown (write_buffer_get_next s.wb));
  }

  abbrev pub calls : Traffic → List Call → Traffic
  calls s [] = s
  calls s (c ∷ cs) = calls (call s c) cs

credit-IsConserved :
    (start : WriteBuffer) (s : Traffic) (bytes : Bytes) (out : Status × WriteBuffer)
    → IsConserved start s
    → IsAppended s.wb bytes out
    → IsConserved start (credit s bytes out)
credit-IsConserved start s bytes (ok, wb) v a = record {
  valid = a.valid;
  bytes =
      sym (append_assoc (contents start) s.accepted bytes)
      ∙ ap (λ (xs : Bytes). xs ++ bytes) v.bytes
      ∙ append_assoc s.taken (contents s.wb) bytes
      ∙ ap (λ (xs : Bytes). s.taken ++ xs) (sym (a.accepted refl));
  counted = a.written ∙ v.counted;
}
credit-IsConserved start s bytes (no_memory, wb) v a = record {
  valid = a.valid;
  bytes = v.bytes ∙ ap (λ (xs : Bytes). s.taken ++ xs) (sym (a.refused (λ e. cc)));
  counted = a.written ∙ v.counted;
}
credit-IsConserved start s bytes (full, wb) v a = record {
  valid = a.valid;
  bytes = v.bytes ∙ ap (λ (xs : Bytes). s.taken ++ xs) (sym (a.refused (λ e. cc)));
  counted = a.written ∙ v.counted;
}

shown-next : (wb : WriteBuffer) → IsValid wb → shown (write_buffer_get_next wb) ≡ contents wb
shown-next wb v = rw (next-eq wb v) (elim (Bool-cases (length (contents wb) == 0)) [
  | inl t ↦ rw t (take-all 0 (contents wb) (ground arith))
  | inr t ↦ rw t refl
])

-- Taking more than there is takes all.
take-min : (n : ℕ) (xs : Bytes) → take (min n (length xs)) xs ≡ take n xs
take-min zero xs = ap (λ (k : ℕ). take k xs) {y = 0} (omega arith)
take-min (suc n) [] = ap (λ (k : ℕ). take k []) {y = 0} (omega arith)
take-min (suc n) (x ∷ xs) =
    ap (λ (k : ℕ). take k (x ∷ xs)) {y = suc (min n (length xs))} (omega arith)
    ∙ ap (◌∷◌ x) (take-min n xs)

written-IsConserved :
    (start : WriteBuffer) (s : Traffic) (n : ℕ)
    → IsConserved start s
    → IsConserved start (record {
      wb = (write_buffer_consume s.wb n).1;
      accepted = s.accepted;
      taken = s.taken ++ take n (shown (write_buffer_get_next s.wb));
    })
written-IsConserved start s n v =
    let c = consume-IsConsumed s.wb n v.valid in
    let k = (write_buffer_consume s.wb n).0 in
    let e : take n (shown (write_buffer_get_next s.wb)) ≡ take k (contents s.wb) =
      ap (take n) (shown-next s.wb v.valid)
      ∙ sym (take-min n (contents s.wb))
      ∙ ap (λ (m : ℕ). take m (contents s.wb)) (sym c.count) in
    record {
      valid = c.valid;
      bytes =
          v.bytes
          ∙ ap (λ (xs : Bytes). s.taken ++ xs) (sym (take-append-drop k (contents s.wb)))
          ∙ sym (append_assoc s.taken (take k (contents s.wb)) (drop k (contents s.wb)))
          ∙ rw (e, c.rest) refl;
      counted =
          rw (e, length-append s.taken (take k (contents s.wb)), length-take k (contents s.wb))
            (omega (arith, c.written, c.count, v.counted));
    }

set_pending-IsConserved :
    (start : WriteBuffer) (s : Traffic) (b : Bool)
    → IsConserved start s
    → IsConserved start (record s { wb = write_buffer_set_pending s.wb b })
unfolding write_buffer_set_pending
set_pending-IsConserved start s b v = record {
  valid = record {
    ordered = v.valid.ordered;
    inside = v.valid.inside;
    sized = v.valid.sized;
    limited = v.valid.limited;
  };
  bytes = v.bytes;
  counted = v.counted;
}

module _ (alloc : Allocator) where
  call-IsConserved :
      (start : WriteBuffer) (s : Traffic) (c : Call)
      → Fits c
      → IsConserved start s
      → IsConserved start (call alloc s c)
  call-IsConserved start s (queue bytes) f v =
      credit-IsConserved start s bytes (write_buffer_append alloc s.wb bytes) v
        (append-IsAppended alloc s.wb bytes v.valid f)
  call-IsConserved start s (set_pending b) f v = set_pending-IsConserved start s b v
  call-IsConserved start s (written n) f v = written-IsConserved start s n v

abbrev pub AllFit : List Call → Type 0
AllFit [] = Unit
AllFit (c ∷ cs) = Fits c × AllFit cs

abbrev pub untouched : WriteBuffer → Traffic
untouched wb = record { wb = wb; accepted = []; taken = [] }

calls-IsConserved :
    (alloc : Allocator) (start : WriteBuffer) (s : Traffic) (cs : List Call)
    → AllFit cs
    → IsConserved start s
    → IsConserved start (calls alloc s cs)
calls-IsConserved alloc start s [] f v = v
calls-IsConserved alloc start s (c ∷ cs) f v =
    calls-IsConserved alloc start (call alloc s c) cs f.1 (call-IsConserved alloc start s c f.0 v)

-- Over any sequence of appends, consumed writes and changes of the in-flight flag, with any
-- allocator, the bytes taken from a valid buffer followed by those it still holds are the bytes it
-- held at first followed by those of the appends that succeeded, in order; the buffer stays valid
-- and `bytes_written` has grown by the number of bytes taken, modulo 2 ^ 64.
pub stream-IsConserved :
    (alloc : Allocator) (wb : WriteBuffer) (cs : List Call)
    → IsValid wb
    → wb.bytes_written < 2 ^ 64
    → AllFit cs
    → IsConserved wb (calls alloc (untouched wb) cs)
stream-IsConserved alloc wb cs v h f =
    calls-IsConserved alloc wb (untouched wb) cs f
      (record { valid = v; bytes = append-nil (contents wb); counted = omega arith })
