-- ===== src/Daemon/Ring/Full.antt =====
-- ring.c: a receive that finds no place in the queue, before and after a submission.
use mod_socket_handoff.Base.{ℕ, ◌+◌, ◌∷◌, ◌≡◌, refl, Bool, true, false}
use mod_socket_handoff.Base.Int.{ℤ}
use mod_socket_handoff.Daemon.Ring.{
  Ring, Sqe, entry, put, write, write_fd, ring_pack_data, ring_submit_write,
  ring_submit_linked_timeout, plain, timer, timespec_of, curl_timeout, ring_submit_curl_timeout,
  remove_timer, cancel, ring_cancel_curl_timeout, ring_submit_recvmsg, ring_get_sqe_flush,
  retry_sqe, get_sqe, fill,
}

fill_full : (sqe : Sqe) (o : Bool × Ring) → o.0 ≡ false → (fill sqe o).0 ≡ false
unfolding fill
fill_full sqe (true, r) e = e
fill_full sqe (false, r) e = refl

retry_full :
    (room : ℕ → Bool)
    → ((n : ℕ) → room n ≡ false)
    → (o : Bool × Ring) → o.0 ≡ false
    → (retry_sqe room o).0 ≡ false
unfolding retry_sqe get_sqe
retry_full room h (true, r) e = e
retry_full room h (false, r) e = h _

pub recvmsg_full :
    (room : ℕ → Bool)
    → ((n : ℕ) → room n ≡ false)
    → (id : ℕ) (fd : ℤ) (msg : ℕ) (r : Ring) → (ring_submit_recvmsg room id fd msg r).0 ≡ false
unfolding ring_submit_recvmsg ring_get_sqe_flush get_sqe
recvmsg_full room h id fd msg r = fill_full _ _ (retry_full room h (get_sqe room r) (h r.calls))

pub write_full :
    (room : ℕ → Bool)
    → ((n : ℕ) → room n ≡ false)
    → (id : ℕ) (fd : ℤ) (buf len : ℕ) (r : Ring)
    → (ring_submit_write room id fd buf len r).0 ≡ false
unfolding ring_submit_write ring_get_sqe_flush get_sqe
write_full room h id fd buf len r = fill_full _ _ (retry_full room h (get_sqe room r) (h r.calls))

abbrev pub write_sqe : ℕ → ℤ → ℕ → ℕ → Sqe
write_sqe id fd buf len = record {
  request = write_fd fd buf len;
  user_data = ring_pack_data write id;
  linked = true;
}

-- The last place goes to a write, and its timeout finds none.
pub last_place :
    (room : ℕ → Bool) (id : ℕ) (fd : ℤ) (buf len ms : ℕ) (r : Ring)
    → room r.calls ≡ true
    → room (r.calls + 1) ≡ false
    → let log = entry (write_sqe id fd buf len) ∷ r.log in
      (ring_submit_write room id fd buf len r ≡ (true, record { calls = r.calls + 1; log = log }))
      × (ring_submit_linked_timeout room id ms (record { calls = r.calls + 1; log = log })
          ≡ (false, record { calls = r.calls + 1 + 1; log = log }))
unfolding ring_submit_write ring_submit_linked_timeout ring_get_sqe_flush retry_sqe get_sqe fill put
last_place room id fd buf len ms r h e = (rw h refl, rw e refl)

module _ (room : ℕ → Bool) (free : (n : ℕ) → room n ≡ true) where
  pub curl_timeout_queued :
      (ms id : ℕ) (r : Ring)
      → ring_submit_curl_timeout room ms id r ≡ (
        true,
        record {
          calls = r.calls + 1;
          log = entry (plain (timer (timespec_of ms)) (ring_pack_data curl_timeout id)) ∷ r.log;
        },
      )
  unfolding ring_submit_curl_timeout ring_get_sqe_flush retry_sqe get_sqe fill put
  curl_timeout_queued ms id r = rw (free r.calls) refl

  pub curl_cancel_queued :
      (id : ℕ) (r : Ring)
      → ring_cancel_curl_timeout room id r ≡ (
        true,
        record {
          calls = r.calls + 1;
          log =
              entry
                (plain (remove_timer (ring_pack_data curl_timeout id)) (ring_pack_data cancel id))
              ∷ r.log;
        },
      )
  unfolding ring_cancel_curl_timeout ring_get_sqe_flush retry_sqe get_sqe fill put
  curl_cancel_queued id r = rw (free r.calls) refl
