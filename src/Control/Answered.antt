-- ===== src/Control/Answered.antt =====
-- chip_wait_ctrlq (src/chip/chip_gpu_cmds.c) returns the answer to its own request.
use virt_iogpu.Prelude.{
  ℕ, zero, suc, ◌+◌, ◌-◌, ◌%◌, ◌≤◌, ◌<◌, ◌≡◌, refl, ◌∙◌, ap, ◌≢◌, Bool, true, List, ◌∷◌, ◌++◌,
  arith, Option, none, some, ==-self, ==-ne, reverse_onto,
}
use virt_iogpu.Word.{vr16, vr32}
use virt_iogpu.Virtqueue.State.{Virtqueue}
use virt_iogpu.Virtqueue.GetBuf.{Got, get_buf}
use virt_iogpu.Virtqueue.Invariant.{Req, descs, Inv}
use virt_iogpu.Virtqueue.Outcome.{Tables}
use virt_iogpu.Virtqueue.Get.{get_buf-GotBack}
use virt_iogpu.Control.Wait.{Polled, polled, poll, wait_attempts, wait_ctrlq}

get_buf-empty :
    (vq : Virtqueue)
    → vq.last_used_idx ≡ vr16 vq.modern vq.used_idx
    → get_buf true vq ≡ some (record { cookie = 0; len_out = none; queue = vq })
unfolding get_buf
get_buf-empty vq e = rw (e, ==-self (vr16 vq.modern vq.used_idx))

-- Nothing has arrived yet.
abbrev waiting_in : Virtqueue → Polled
waiting_in vq = record { got_cookie = 0; bytes_written = 0; queue = vq }

module _ (device : ℕ → Virtqueue → Virtqueue) (cookie : ℕ) (ne : 0 ≢ cookie) (vq : Virtqueue)
    (quiet : vq.last_used_idx ≡ vr16 vq.modern vq.used_idx) where
  poll-empty :
      (rounds n : ℕ)
      → device n vq ≡ vq
      → poll device cookie (suc rounds) n (waiting_in vq)
        ≡ poll device cookie rounds (suc n) (waiting_in vq)
  unfolding poll
  poll-empty rounds n idle = rw (poll, idle, get_buf-empty vq quiet, ==-ne 0 cookie ne) refl

  -- Attempts before the device has answered.
  poll-quiet :
      (k rounds n : ℕ)
      → ((j : ℕ) → n ≤ j → j < n + k → device j vq ≡ vq)
      → poll device cookie (k + rounds) n (waiting_in vq)
        ≡ poll device cookie rounds (n + k) (waiting_in vq)
  poll-quiet zero rounds n idle =
      let a : 0 + rounds ≡ rounds = omega arith in let b : n + 0 ≡ n = omega arith in rw (a, b) refl
  poll-quiet (suc k) rounds n idle =
      let a : suc k + rounds ≡ suc (k + rounds) = omega arith in
      let b : n + suc k ≡ suc n + k = omega arith in
      rw (a, b)
        (poll-empty (k + rounds) n (idle n (omega arith) (omega arith))
          ∙ poll-quiet k rounds (suc n) (λ j p q. idle j (omega arith) (omega arith)))

-- What chip_wait_ctrlq returns and leaves, where the device has answered the request `r`.
pub record Answer (vq : Virtqueue) (free : List ℕ) (pre : List Req) (r : Req) (post : List Req)
    (o : Option (ℕ × Virtqueue)) : Type 0 where
  pub queue : Virtqueue
  pub returned : o ≡ some (vr32 vq.modern (vq.used_ring (vq.last_used_idx % vq.num)).len, queue)
  pub inv : Inv queue (reverse_onto (descs r) free) (pre ++ post)
  pub tables : Tables queue (pre ++ post)

poll-hit :
    (device : ℕ → Virtqueue → Virtqueue) (cookie rounds n : ℕ) (p : Polled) (g : Got)
    → get_buf true (device n p.queue) ≡ some g
    → g.cookie ≡ cookie
    → poll device cookie (suc rounds) n p ≡ some (polled p.bytes_written g)
unfolding poll
poll-hit device cookie rounds n p g e c = rw (poll, e, c, ==-self cookie) refl

module _ (device : ℕ → Virtqueue → Virtqueue) (has_signal : Bool) (k : ℕ) (vq : Virtqueue)
    (free : List ℕ) (pre : List Req) (r : Req) (post : List Req) where
  wait_ctrlq-hit :
      (g : Got) (len : ℕ)
      → k < wait_attempts has_signal
      → 0 ≢ r.cookie
      → vq.last_used_idx ≡ vr16 vq.modern vq.used_idx
      → ((j : ℕ) → j < k → device j vq ≡ vq)
      → get_buf true (device k vq) ≡ some g
      → g.cookie ≡ r.cookie
      → g.len_out ≡ some len
      → wait_ctrlq device has_signal r.cookie vq ≡ some (len, g.queue)
  unfolding wait_ctrlq
  wait_ctrlq-hit g len soon ne quiet idle e c l =
      let rounds : wait_attempts has_signal ≡ k + suc (wait_attempts has_signal - k - 1) =
        omega arith in
      let at : 0 + k ≡ k = omega arith in
      rw
        (
          wait_ctrlq,
          rounds,
          poll-quiet device r.cookie ne vq quiet k (suc (wait_attempts has_signal - k - 1)) 0
              (λ j p q. idle j (omega arith)),
          at,
          poll-hit device r.cookie (wait_attempts has_signal - k - 1) k (waiting_in vq) g e c,
          c,
          ==-self r.cookie,
          l,
        )
        refl

  -- Where the device answers the request before the last attempt, chip_wait_ctrlq returns the
  -- number of bytes that the device wrote for this request, and leaves the queue with the
  -- request's descriptors back and every other ownership unchanged.
  -- Conditions: nothing has arrived before; up to attempt `k`, less than the number of attempts,
  -- the device does nothing, and then it leaves a queue whose next used entry is the request.
  pub wait_ctrlq-Answer :
      (vq' : Virtqueue)
      → k < wait_attempts has_signal
      → 0 ≢ r.cookie
      → vq.last_used_idx ≡ vr16 vq.modern vq.used_idx
      → ((j : ℕ) → j < k → device j vq ≡ vq)
      → device k vq ≡ vq'
      → Inv vq' free (pre ++ r ∷ post)
      → Tables vq' (pre ++ r ∷ post)
      → (vq'.last_used_idx ≢ vr16 vq'.modern vq'.used_idx)
      → vr32 vq'.modern (vq'.used_ring (vq'.last_used_idx % vq'.num)).id ≡ r.head
      → Answer vq' free pre r post (wait_ctrlq device has_signal r.cookie vq)
  wait_ctrlq-Answer vq' soon ne quiet idle answered v t more named =
      let b = get_buf-GotBack true vq' free pre r post v t more named in
      record {
        queue = b.got.queue;
        returned =
            wait_ctrlq-hit b.got _ soon ne quiet idle (ap (get_buf true) answered ∙ b.ended)
              b.cookie b.len_out;
        inv = b.inv;
        tables = b.tables;
      }
