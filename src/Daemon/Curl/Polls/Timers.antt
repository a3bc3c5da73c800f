-- ===== src/Daemon/Curl/Polls/Timers.antt =====
-- curl_manager.c: the timer of libcurl.
use mod_socket_handoff.Base.{
  ℕ, ◌+◌, ◌≡◌, refl, ap, ◌∙◌, Bool, true, false, ◌∷◌, ◌==◌, ◌<◌, ◌^◌, Option, if◌then◌else◌,
}
use mod_socket_handoff.Base.Int.{pos, negsuc}
use mod_socket_handoff.Daemon.Ring.{
  Ring, Event, entry, submission, timer, remove_timer, timespec_of, curl_timeout, cancel,
  ring_pack_data, ring_submit, ring_unpack_data, Op,
}
use mod_socket_handoff.Daemon.Ring.Full.{curl_timeout_queued, curl_cancel_queued}
use mod_socket_handoff.Daemon.Curl.Polls.{
  Manager, next_id, timer_callback, cancel_timer, timer_after, set_timer,
  curl_manager_timeout_action, process_timer_cqe, on_timer,
}
use mod_socket_handoff.Daemon.Ring.Packing.{unpack-pack}
use mod_socket_handoff.Daemon.Loop.State.{Cqe}

abbrev pub timer_entry : ℕ → ℕ → Event
timer_entry ms id = entry (record {
  request = timer (timespec_of ms);
  user_data = ring_pack_data curl_timeout id;
  linked = false;
})

abbrev pub cancel_entry : ℕ → Event
cancel_entry id = entry (record {
  request = remove_timer (ring_pack_data curl_timeout id);
  user_data = ring_pack_data cancel id;
  linked = false;
})

-- With a timer that runs: its cancellation is put in the queue.
module _ (room : ℕ → Bool) (free : (n : ℕ) → room n ≡ true) where
  cancelled :
      (mgr : Manager) (r : Ring)
      → mgr.timer_active ≡ true
      → cancel_timer room mgr r ≡ (
        record mgr { timer_active = false },
        record { calls = r.calls + 1; log = cancel_entry mgr.timer_id ∷ r.log },
      )
  unfolding cancel_timer
  cancelled mgr r a = simp (a, curl_cancel_queued room free mgr.timer_id r) refl

  idle : (mgr : Manager) (r : Ring) → mgr.timer_active ≡ false → cancel_timer room mgr r ≡ (mgr, r)
  unfolding cancel_timer
  idle mgr r a = simp a refl

  timed :
      (mgr : Manager) (ms : ℕ) (r : Ring)
      → set_timer room mgr ms r ≡ (
        record mgr { timer_id = next_id room mgr.timer_id; timer_active = true },
        record {
          calls = r.calls + 1;
          log = submission ∷ timer_entry ms (next_id room mgr.timer_id) ∷ r.log;
        },
      )
  unfolding set_timer ring_submit
  timed mgr ms r = simp (curl_timeout_queued room free ms (next_id room mgr.timer_id) r) refl

  abbrev pub after_time : ℕ → ℕ
  after_time ms = if ms == 0 then 1 else ms

  pub replaced :
      (mgr : Manager) (r : Ring) (ms : ℕ)
      → mgr.timer_active ≡ true
      → timer_callback room mgr r (pos ms) ≡ (
        record mgr { timer_id = next_id room mgr.timer_id; timer_active = true },
        record {
          calls = r.calls + 1 + 1;
          log =
              submission
              ∷ timer_entry (after_time ms) (next_id room mgr.timer_id)
              ∷ cancel_entry mgr.timer_id
              ∷ r.log;
        },
      )
  unfolding timer_callback timer_after
  replaced mgr r ms a =
      ap (timer_after room (pos ms)) (cancelled mgr r a)
      ∙ timed (record mgr { timer_active = false }) (after_time ms)
          (record { calls = r.calls + 1; log = cancel_entry mgr.timer_id ∷ r.log })

  pub begun :
      (mgr : Manager) (r : Ring) (ms : ℕ)
      → mgr.timer_active ≡ false
      → timer_callback room mgr r (pos ms) ≡ (
        record mgr { timer_id = next_id room mgr.timer_id; timer_active = true },
        record {
          calls = r.calls + 1;
          log = submission ∷ timer_entry (after_time ms) (next_id room mgr.timer_id) ∷ r.log;
        },
      )
  unfolding timer_callback timer_after
  begun mgr r ms a = ap (timer_after room (pos ms)) (idle mgr r a) ∙ timed mgr (after_time ms) r

  -- The completion of the timer `id`, whatever its result, ends the timer that is said to run.
  timer_done :
      (mgr : Manager) (cqe : Cqe) (id : ℕ)
      → id < 2 ^ 32
      → cqe.user_data ≡ ring_pack_data curl_timeout id
      → process_timer_cqe mgr cqe ≡ record mgr { timer_active = false }
  unfolding process_timer_cqe curl_manager_timeout_action
  timer_done mgr cqe id h e =
      ap (λ (n : ℕ). on_timer mgr (ring_unpack_data n).0) e
      ∙ ap (λ (o : Option Op × ℕ). on_timer mgr o.0) (unpack-pack curl_timeout id h).0

  -- A timer runs, and libcurl asks for another time twice, with room in the queue and times that are not negative. The second
  -- request puts a cancellation of the timer of the first one in the queue. But if the completion that says that
  -- the old timer was cancelled (-ECANCELED, with the identifier of the old timer) is processed between the
  -- two, the queue gets the second timer and no cancellation of the first.
  pub late_completion :
      (mgr : Manager) (r : Ring) (a b : ℕ) (cqe : Cqe)
      → mgr.timer_active ≡ true
      → mgr.timer_id < 2 ^ 32
      → cqe.user_data ≡ ring_pack_data curl_timeout mgr.timer_id
      → cqe.res ≡ negsuc 124
      → let one = timer_callback room mgr r (pos a) in
        let id = next_id room mgr.timer_id in
        let first =
          submission ∷ timer_entry (after_time a) id ∷ cancel_entry mgr.timer_id ∷ r.log in
        let second = timer_entry (after_time b) (next_id room id) in
        ((timer_callback room one.0 one.1 (pos b)).1.log
          ≡ submission ∷ second ∷ cancel_entry id ∷ first)
        × ((timer_callback room (process_timer_cqe one.0 cqe) one.1 (pos b)).1.log
            ≡ submission ∷ second ∷ first)
  late_completion mgr r a b cqe t h e res =
      let id = next_id room mgr.timer_id in
      let running : Manager = record mgr { timer_id = id; timer_active = true } in
      let after : Ring = record {
        calls = r.calls + 1 + 1;
        log = submission ∷ timer_entry (after_time a) id ∷ cancel_entry mgr.timer_id ∷ r.log;
      } in
      (
        ap (λ (one : Manager × Ring). (timer_callback room one.0 one.1 (pos b)).1.log)
              (replaced mgr r a t)
            ∙ ap (λ (two : Manager × Ring). two.1.log) (replaced running after b refl),
        ap
              (λ (one : Manager × Ring).
                (timer_callback room (process_timer_cqe one.0 cqe) one.1 (pos b)).1.log)
              (replaced mgr r a t)
            ∙ ap (λ (m : Manager). (timer_callback room m after (pos b)).1.log)
                (timer_done running cqe mgr.timer_id h e)
            ∙ ap (λ (two : Manager × Ring). two.1.log)
                (begun (record running { timer_active = false }) after b refl),
      )
