-- ===== src/Virtqueue.antt =====
-- The split virtqueue of src/virtio/virtqueue.c and include/virtio/virtqueue.h.
pub mod State
pub mod AddBuf
pub mod GetBuf
pub mod Invariant
pub mod DeviceView
pub mod Chains
pub mod Linking
pub mod Freeing
pub mod Add
pub mod Outcome
pub mod Published
pub mod GiveBack
pub mod Get
pub mod Allocate
pub mod Fresh
pub mod Sample
mod Tests
