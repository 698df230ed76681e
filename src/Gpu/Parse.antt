-- ===== src/Gpu/Parse.antt =====
-- The host's parser of control commands (VirtIO 1.2, 5.7.6): little-endian words, by the type.
use virt_iogpu.Prelude.{
  ℕ, zero, suc, ◌+◌, ◌*◌, ◌^◌, List, [], ◌∷◌, Option, none, some, ◌==◌, if◌then◌else◌,
}
use virt_iogpu.Gpu.Wire.{gp32, Rect, MemEntry}
use virt_iogpu.Gpu.Messages.{Transfer3D}
use virt_iogpu.Gpu.Command.{Command, HostCommand}

abbrev pub join64 : ℕ → ℕ → ℕ
join64 low high = low + high * 2 ^ 32

abbrev add_entry : MemEntry → Option (List MemEntry) → Option (List MemEntry)
add_entry e none = none
add_entry e (some es) = some (e ∷ es)

-- `n` entries, and nothing behind them.
unfoldable pub parse_entries : ℕ → List ℕ → Option (List MemEntry)
parse_entries zero [] = some []
parse_entries zero (w ∷ ws) = none
parse_entries (suc n) (low ∷ high ∷ len ∷ padding ∷ ws) =
    add_entry (record { addr = join64 low high; length = len }) (parse_entries n ws)
parse_entries (suc n) ws = none

abbrev pub with_entries :
    (List MemEntry → HostCommand) → Option (List MemEntry) → Option HostCommand
with_entries f none = none
with_entries f (some es) = some (f es)

abbrev one : (ℕ → HostCommand) → List ℕ → Option HostCommand
one f (a ∷ padding ∷ []) = some (f a)
one f ws = none

abbrev two : (ℕ → ℕ → HostCommand) → List ℕ → Option HostCommand
two f (a ∷ b ∷ []) = some (f a b)
two f ws = none

abbrev four : (ℕ → ℕ → ℕ → ℕ → HostCommand) → List ℕ → Option HostCommand
four f (a ∷ b ∷ c ∷ d ∷ []) = some (f a b c d)
four f ws = none

abbrev bare : HostCommand → List ℕ → Option HostCommand
bare c [] = some c
bare c ws = none

-- A rectangle, and two words behind it.
abbrev placed : (Rect → ℕ → ℕ → HostCommand) → List ℕ → Option HostCommand
placed f (x ∷ y ∷ w ∷ h ∷ a ∷ b ∷ []) =
    some (f (record { x = x; y = y; width = w; height = h }) a b)
placed f ws = none

abbrev transfer_2d : List ℕ → Option HostCommand
transfer_2d (x ∷ y ∷ w ∷ h ∷ low ∷ high ∷ i ∷ padding ∷ []) =
    some (Command.to_host_2d i (record { x = x; y = y; width = w; height = h }) (join64 low high))
transfer_2d ws = none

abbrev cursor : (ℕ → ℕ → ℕ → ℕ → ℕ → HostCommand) → List ℕ → Option HostCommand
cursor f (s ∷ x ∷ y ∷ p ∷ i ∷ hx ∷ hy ∷ q ∷ []) = some (f i x y hx hy)
cursor f ws = none

abbrev context : ℕ → List ℕ → Option HostCommand
context ctx (n ∷ init ∷ name) = some (Command.new_context ctx (n, name) init)
context ctx ws = none

abbrev resource_3d : List ℕ → Option HostCommand
resource_3d (i ∷ t ∷ f ∷ b ∷ w ∷ h ∷ d ∷ a ∷ l ∷ s ∷ g ∷ p ∷ []) = some (
    Command.new_3d i (record {
      target = t;
      format = f;
      bind = b;
      width = w;
      height = h;
      depth = d;
      array_size = a;
      last_level = l;
      nr_samples = s;
      flags = g;
    }))
resource_3d ws = none

abbrev transfer_3d : (Transfer3D → HostCommand) → ℕ → List ℕ → Option HostCommand
transfer_3d c ctx (x ∷ y ∷ z ∷ w ∷ h ∷ d ∷ low ∷ high ∷ i ∷ l ∷ s ∷ t ∷ []) = some (
    c (record {
      ctx_id = ctx;
      resource_id = i;
      level = l;
      stride = s;
      layer_stride = t;
      offset = join64 low high;
      region = record { x = x; y = y; z = z; w = w; h = h; d = d };
    }))
transfer_3d c ctx ws = none

abbrev backing : List ℕ → Option HostCommand
backing (i ∷ n ∷ ws) = with_entries (Command.attach i) (parse_entries n ws)
backing ws = none

abbrev blob : List ℕ → Option HostCommand
blob (i ∷ m ∷ f ∷ n ∷ id_low ∷ id_high ∷ low ∷ high ∷ ws) =
    with_entries
      (Command.new_blob (record {
        resource_id = i;
        blob_mem = m;
        blob_flags = f;
        blob_id = join64 id_low id_high;
        size = join64 low high;
      }))
      (parse_entries n ws)
blob ws = none

unfoldable pub by_type : ℕ → ℕ → List ℕ → Option HostCommand
by_type t ctx ws =
    if t == 0x100
    then bare Command.display_info ws
    else if t == 0x101
    then four Command.new_2d ws
    else if t == 0x102
    then one Command.unref ws
    else if t == 0x103
    then placed (λ r s i. Command.scanout s i r) ws
    else if t == 0x104
    then placed (λ r i p. Command.flush i r) ws
    else if t == 0x105
    then transfer_2d ws
    else if t == 0x106
    then backing ws
    else if t == 0x108
    then one Command.capset_info ws
    else if t == 0x109
    then two Command.capset ws
    else if t == 0x10a
    then one Command.edid ws
    else if t == 0x10d
    then blob ws
    else if t == 0x200
    then context ctx ws
    else if t == 0x201
    then bare (Command.drop_context ctx) ws
    else if t == 0x202
    then one (Command.ctx_attach ctx) ws
    else if t == 0x203
    then one (Command.ctx_detach ctx) ws
    else if t == 0x204
    then resource_3d ws
    else if t == 0x205
    then transfer_3d Command.to_host_3d ctx ws
    else if t == 0x206
    then transfer_3d Command.from_host_3d ctx ws
    else if t == 0x207
    then one (Command.submit ctx) ws
    else if t == 0x300
    then cursor Command.update_cursor ws
    else if t == 0x301
    then cursor Command.move_cursor ws
    else none

abbrev pub parse_words : List ℕ → Option HostCommand
parse_words (t ∷ flags ∷ fence_low ∷ fence_high ∷ ctx ∷ ring ∷ ws) = by_type t ctx ws
parse_words ws = none

-- The command in a message, as it stands in memory.
unfoldable pub parse : List ℕ → Option HostCommand
parse ws = parse_words (gp32 ws)
