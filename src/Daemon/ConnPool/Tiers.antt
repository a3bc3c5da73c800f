-- ===== src/Daemon/ConnPool/Tiers.antt =====
-- connection.c, `conn_grow_handoff_buf`: the sizes of the handoff buffer.
use mod_socket_handoff.Base.{
  ℕ, ◌≤◌, ◌<◌, ◌≡◌, refl, Bool, true, false, Option, none, some, ◌⊎◌, arith,
}
use mod_socket_handoff.Daemon.ConnPool.{
  Connection, conn_grow_handoff_buf, grow_by, grown_to, next_tier,
}

-- What growing does: nothing, or a block of the next size that holds more.
pub data IsGrown (realloc : Option ℕ → ℕ → Option ℕ) (conn : Connection)
    : Bool × Connection → Type 0 where
  largest : 65536 ≤ conn.handoff_cap → IsGrown realloc conn (false, conn)
  no_block :
      (cap : ℕ)
      → conn.handoff_cap < cap
      → (cap ≡ 16384) ⊎ (cap ≡ 65536)
      → realloc conn.handoff_buf cap ≡ none
      → IsGrown realloc conn (false, conn)
  grown :
      (b cap : ℕ)
      → conn.handoff_cap < cap
      → (cap ≡ 16384) ⊎ (cap ≡ 65536)
      → realloc conn.handoff_buf cap ≡ some b
      → IsGrown realloc conn (true, record conn { handoff_buf = some b; handoff_cap = cap })

none_tier : (n : ℕ) → next_tier n ≡ none → 65536 ≤ n
none_tier n h = ground arith

some_tier : (n c : ℕ) → next_tier n ≡ some c → (n < c) × ((c ≡ 16384) ⊎ (c ≡ 65536))
some_tier n c h = ground arith

grown_to-IsGrown :
    (realloc : Option ℕ → ℕ → Option ℕ) (conn : Connection) (c : ℕ) (r : Option ℕ)
    → realloc conn.handoff_buf c ≡ r
    → conn.handoff_cap < c
    → (c ≡ 16384) ⊎ (c ≡ 65536)
    → IsGrown realloc conn (grown_to conn c r)
unfolding grown_to
grown_to-IsGrown realloc conn c none e l m = no_block c l m e
grown_to-IsGrown realloc conn c (some b) e l m = grown b c l m e

grow_by-IsGrown :
    (realloc : Option ℕ → ℕ → Option ℕ) (conn : Connection) (t : Option ℕ)
    → next_tier conn.handoff_cap ≡ t
    → IsGrown realloc conn (grow_by realloc conn t)
unfolding grow_by
grow_by-IsGrown realloc conn none h = largest (none_tier conn.handoff_cap h)
grow_by-IsGrown realloc conn (some c) h =
    let b = some_tier conn.handoff_cap c h in
    grown_to-IsGrown realloc conn c (realloc conn.handoff_buf c) refl b.0 b.1

-- `conn_grow_handoff_buf` gives a larger buffer, of 16 KB or of 64 KB, at the block of `realloc`, or fails
-- and leaves the connection as it was, because the buffer has 64 KB or `realloc` fails.
pub grow-IsGrown :
    (realloc : Option ℕ → ℕ → Option ℕ) (conn : Connection)
    → IsGrown realloc conn (conn_grow_handoff_buf realloc conn)
unfolding conn_grow_handoff_buf
grow-IsGrown realloc conn = grow_by-IsGrown realloc conn (next_tier conn.handoff_cap) refl
