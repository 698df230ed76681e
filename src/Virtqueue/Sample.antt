-- ===== src/Virtqueue/Sample.antt =====
-- A small virtqueue in use, for runs of src/virtio/virtqueue.c.
use virt_iogpu.Prelude.{refl, true, false, [], ◌∷◌, none, inl, arith, update}
use virt_iogpu.Word.{vr16}
use virt_iogpu.Virtqueue.State.{Virtqueue}
use virt_iogpu.Virtqueue.Allocate.{zero_desc}
use virt_iogpu.Virtqueue.Invariant.{Req, Inv}
use virt_iogpu.Virtqueue.Outcome.{Tables}

-- A request of two descriptors is with a legacy device, which has finished it.
abbrev pub busy : Virtqueue
busy = record {
  num = 4;
  desc =
      update
        (update (update (λ i. zero_desc) 0 (record { addr = 4096; len = 64; flags = 1; next = 1 }))
          1 (record { addr = 4097; len = 64; flags = 2; next = 2 }))
        2 (record { addr = 0; len = 0; flags = 0; next = 3 });
  avail_flags = 0;
  avail_idx = 1;
  avail_ring = λ i. 0;
  used_idx = 1;
  used_ring = λ i. record { id = 0; len = 48 };
  free_head = 2;
  num_free = 2;
  last_used_idx = 0;
  cookies = update (λ i. 0) 0 77;
  indirect_tables = λ i. 0;
  modern = false;
  use_event_idx = true;
  use_indirect = false;
  heap = λ p. none;
}

abbrev pub request : Req
request = record { head = 0; rest = 1 ∷ []; cookie = 77; table = 0 }

pub busy-Inv : Inv busy (2 ∷ 3 ∷ []) (request ∷ [])
unfolding vr16
busy-Inv = record {
  num_pos = omega arith;
  num_small = omega arith;
  linked = (refl, (refl, tt));
  counted = refl;
  total = refl;
  partition = λ i. ground arith;
  held = (
    record { cookie_kept = refl; table_kept = refl; shape = inl (refl, (refl, refl, refl)) },
    tt,
  );
}

pub busy-Tables : Tables busy (request ∷ [])
busy-Tables = record { once = λ p ne. ground arith; mapped = λ p t h. cc }
