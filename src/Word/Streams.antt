-- ===== src/Word/Streams.antt =====
-- Lists of swapped words, as a stream stands in memory (include/virtio/virtqueue.h, GP32).
use virt_iogpu.Prelude.{ℕ, suc, ◌^◌, ◌<◌, ◌≡◌, refl, ap, List, [], ◌∷◌, ◌++◌, map, length, All}
use virt_iogpu.Word.{bswap32, bswap32-bswap32}

pub length-map_bswap : (xs : List ℕ) → length (map bswap32 xs) ≡ length xs
length-map_bswap [] = refl
length-map_bswap (x ∷ xs) = ap suc (length-map_bswap xs)

pub map-append_bswap : (xs ys : List ℕ) → map bswap32 (xs ++ ys) ≡ map bswap32 xs ++ map bswap32 ys
map-append_bswap [] ys = refl
map-append_bswap (x ∷ xs) ys = ap (◌∷◌ (bswap32 x)) (map-append_bswap xs ys)

pub map_bswap_twice : (xs : List ℕ) → All (λ w. w < 2 ^ 32) xs → map bswap32 (map bswap32 xs) ≡ xs
map_bswap_twice [] h = refl
map_bswap_twice (x ∷ xs) h = rw (bswap32-bswap32 x h.0, map_bswap_twice xs h.1) refl
