-- ===== src/Prelude/Counts.antt =====
-- How often a number stands in a list: disjointness and ownership are stated with it.
use Prim.Native.Nat.{ℕ, zero, suc, ◌+◌}
use mathlib.Core.Path.{◌≡◌}
use mathlib.Core.Logic.{◌≢◌}
use mathlib.Core.List.{List, [], ◌∷◌, ◌++◌}
use native.Mathlib.Omega.{arith}
use virt_iogpu.Prelude.Tests.{◌==◌, if◌then◌else◌}
use virt_iogpu.Prelude.Lists.{take, drop, reverse_onto}

abbrev pub count : ℕ → List ℕ → ℕ
count i [] = 0
count i (x ∷ xs) = (if x == i then 1 else 0) + count i xs

pub count-append : (i : ℕ) (xs ys : List ℕ) → count i (xs ++ ys) ≡ count i xs + count i ys
count-append i [] ys = omega arith
count-append i (x ∷ xs) ys = omega (arith, count-append i xs ys)

pub count-reverse_onto :
    (i : ℕ) (xs ys : List ℕ) → count i (reverse_onto xs ys) ≡ count i xs + count i ys
count-reverse_onto i [] ys = omega arith
count-reverse_onto i (x ∷ xs) ys = omega (arith, count-reverse_onto i xs (x ∷ ys))

pub count-take-drop :
    (i n : ℕ) (xs : List ℕ) → count i (take n xs) + count i (drop n xs) ≡ count i xs
count-take-drop i zero xs = omega arith
count-take-drop i (suc n) [] = omega arith
count-take-drop i (suc n) (x ∷ xs) = omega (arith, count-take-drop i n xs)

pub count-head : (i : ℕ) (xs : List ℕ) → count i (i ∷ xs) ≡ 1 + count i xs
count-head i xs = ground arith

pub ne_of_count : (i x : ℕ) (xs : List ℕ) → count i (x ∷ xs) ≡ 0 → x ≢ i
ne_of_count i x xs h = ground arith
