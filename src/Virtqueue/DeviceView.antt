-- ===== src/Virtqueue/DeviceView.antt =====
-- How the device reads a descriptor chain (VirtIO 1.x, 2.7.5): it follows `next` as long as
-- VRING_DESC_F_NEXT is set, and writes where VRING_DESC_F_WRITE is set.
use virt_iogpu.Prelude.{
  ℕ, zero, suc, ◌+◌, ◌/◌, ◌%◌, ◌^◌, ◌<◌, ◌≡◌, refl, Bool, List, [], ◌∷◌, leb, ◌==◌, arith,
  if◌then◌else◌,
}
use virt_iogpu.Word.{vr16, vr32, vr64, vr32-vr32, vr64-vr64}
use virt_iogpu.Virtqueue.State.{Desc, Sg}

-- One buffer of a request, as the device sees it.
pub record Seg : Type 0 where
  pub addr : ℕ
  pub len : ℕ
  pub write : Bool

abbrev pub read_seg : Bool → Desc → Seg
read_seg modern d = record {
  addr = vr64 modern d.addr;
  len = vr32 modern d.len;
  write = vr16 modern d.flags / 2 % 2 == 1;
}

-- The device reads at most `fuel` descriptors, and stops before where the next flag is clear.
unfoldable pub device_chain : ℕ → Bool → (ℕ → Desc) → ℕ → List Seg
device_chain zero modern d idx = []
device_chain (suc fuel) modern d idx =
    let rest = device_chain fuel modern d (vr16 modern (d idx).next) in
    read_seg modern (d idx) ∷ (if vr16 modern (d idx).flags % 2 == 1 then rest else [])

module _ (fuel : ℕ) (modern : Bool) (d : ℕ → Desc) (idx : ℕ) where
  pub device_chain-last :
      vr16 modern (d idx).flags % 2 ≡ 0
      → device_chain (suc fuel) modern d idx ≡ read_seg modern (d idx) ∷ []
  unfolding device_chain
  device_chain-last h = rw h

  pub device_chain-more :
      {y : ℕ}
      → vr16 modern (d idx).flags % 2 ≡ 1
      → vr16 modern (d idx).next ≡ y
      → device_chain (suc fuel) modern d idx
        ≡ read_seg modern (d idx) ∷ device_chain fuel modern d y
  unfolding device_chain
  device_chain-more h e = rw (h, e)

-- The entries of the scatter-gather list from `n` on, once to the ring's byte order and back.
unfoldable pub encoded : Bool → (ℕ → Sg) → ℕ → ℕ → ℕ → List Seg
encoded modern sg out_num zero n = []
encoded modern sg out_num (suc rounds) n =
    record {
      addr = vr64 modern (vr64 modern (sg n).addr);
      len = vr32 modern (vr32 modern (sg n).len);
      write = leb out_num n;
    }
    ∷ encoded modern sg out_num rounds (n + 1)

-- The entries themselves: the first `out_num` are read by the device, the others are written.
unfoldable pub requested : (ℕ → Sg) → ℕ → ℕ → ℕ → List Seg
requested sg out_num zero n = []
requested sg out_num (suc rounds) n =
    record { addr = (sg n).addr; len = (sg n).len; write = leb out_num n }
    ∷ requested sg out_num rounds (n + 1)

pub encoded-eq-requested :
    (modern : Bool) (sg : ℕ → Sg) (out_num rounds n : ℕ)
    → ((i : ℕ) → ((sg i).addr < 2 ^ 32) × ((sg i).len < 2 ^ 32))
    → encoded modern sg out_num rounds n ≡ requested sg out_num rounds n
unfolding encoded requested
encoded-eq-requested modern sg out_num zero n h = refl
encoded-eq-requested modern sg out_num (suc rounds) n h = rw (
  vr64-vr64 modern (sg n).addr (omega (arith, (h n).0)),
  vr32-vr32 modern (sg n).len (h n).1,
  encoded-eq-requested modern sg out_num rounds (n + 1) h,
)
