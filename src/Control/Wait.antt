-- ===== src/Control/Wait.antt =====
-- chip_wait_ctrlq and chip_do_io (src/chip/chip_gpu_cmds.c). What the device does to the queue
-- before the n-th call of VirtQueue_GetBuf is the parameter `device`.
use virt_iogpu.Prelude.{ℕ, zero, suc, Bool, true, Option, none, some, ◌==◌, if◌then◌else◌}
use virt_iogpu.Virtqueue.State.{Sg, Virtqueue}
use virt_iogpu.Virtqueue.AddBuf.{OsAnswer, queued, queue_full, add_buf}
use virt_iogpu.Virtqueue.GetBuf.{Got, get_buf}

-- The local variables of chip_wait_ctrlq, and the queue.
pub record Polled : Type 0 where
  pub got_cookie : ℕ
  pub bytes_written : ℕ
  pub queue : Virtqueue

-- VirtQueue_GetBuf leaves the length alone where it stores none.
abbrev pub polled : ℕ → Got → Polled
polled bytes g = record {
  got_cookie = g.cookie;
  bytes_written = elim g.len_out [ none ↦ bytes | some n ↦ n ];
  queue = g.queue;
}

abbrev pub after_poll : ℕ → (ℕ → Virtqueue → Option Polled) → Polled → Option Polled
after_poll cookie later p = if p.got_cookie == cookie then some p else later p.bytes_written p.queue

-- The loop of `rounds` attempts, of which `n` is the first one's number.
unfoldable pub poll : (ℕ → Virtqueue → Virtqueue) → ℕ → ℕ → ℕ → Polled → Option Polled
poll device cookie zero n p = some p
poll device cookie (suc rounds) n p = elim (get_buf true (device n p.queue)) [
  | none ↦ none
  | some g ↦
      after_poll cookie
        (λ bytes vq.
          poll device cookie rounds (suc n)
            (record { got_cookie = g.cookie; bytes_written = bytes; queue = vq }))
        (polled p.bytes_written g)
]

-- `while (GetBuf)`, which stops after 257 entries.
unfoldable pub drain : ℕ → Virtqueue → Option Virtqueue
drain zero vq = some vq
drain (suc rounds) vq = elim (get_buf true vq) [
  | none ↦ none
  | some g ↦ if g.cookie == 0 then some g.queue else drain rounds g.queue
]

-- 50 attempts where a signal is there to wait for, else a million.
unfoldable pub wait_attempts : Bool → ℕ
wait_attempts has_signal = if has_signal then 50 else 1000000

abbrev pub conclude : ℕ → Polled → Option (ℕ × Virtqueue)
conclude cookie p =
    if p.got_cookie == cookie
    then some (p.bytes_written, p.queue)
    else elim (drain 257 p.queue) [ none ↦ none | some vq ↦ some (0, vq) ]

unfoldable pub wait_ctrlq :
    (ℕ → Virtqueue → Virtqueue) → Bool → ℕ → Virtqueue → Option (ℕ × Virtqueue)
wait_ctrlq device has_signal cookie vq =
    elim (poll device cookie (wait_attempts has_signal) 0
      (record { got_cookie = 0; bytes_written = 0; queue = vq })) [
        | none ↦ none
        | some p ↦ conclude cookie p
      ]

-- The two entries of a transaction: the command, then the response.
unfoldable pub io_sg : ℕ → ℕ → ℕ → ℕ → ℕ → Sg
io_sg cmd_buf_phys cmd_size resp_buf_phys resp_size zero = record {
  addr = cmd_buf_phys;
  len = cmd_size;
}
io_sg cmd_buf_phys cmd_size resp_buf_phys resp_size (suc n) = record {
  addr = resp_buf_phys;
  len = resp_size;
}

-- chip_do_io of a queue that is there, for the calling task `cookie`.
unfoldable pub do_io :
    (ℕ → Virtqueue → Virtqueue)
    → Bool
    → OsAnswer
    → (ℕ → Sg)
    → ℕ
    → Virtqueue
    → Option (ℕ × Virtqueue)
do_io device has_signal os sg cookie vq =
    let (res, vq') = add_buf os sg 1 1 cookie vq in
    elim res [ queue_full ↦ some (0, vq') | queued ↦ wait_ctrlq device has_signal cookie vq' ]
