-- ===== src/Pht/Tester/Indices.antt =====
-- Where pht/src/pht-tester.c keeps the key of each call.
use kernel_modules.Common.{ℕ, ◌+◌, ◌*◌, ◌^◌, ◌≤◌, ◌<◌, ◌≡◌, ◌⊎◌, inl, inr, ap, arith}
use native.Mathlib.Nat.{mul-le-mul_right, suc-mul}
use kernel_modules.Pht.Tester.{data_bytes, get_global_index, get_string}

pub next_block : (i k size : ℕ) → i < k → i * size + size ≤ k * size
next_block i k size h = omega (arith, mul-le-mul_right size h, suc-mul i size)

pub no_wrap :
    (size threads i j : ℕ)
    → threads * size ≤ 2 ^ 32
    → i < threads
    → j < size
    → get_global_index size i j ≡ i * size + j
unfolding get_global_index
no_wrap size threads i j fits hi hj = omega (arith, fits, hj, next_block i threads size hi)

order : (a b : ℕ) → (a < b) ⊎ ((a ≡ b) ⊎ (b < a))
order a b = ground arith

string_inside :
    (start size threads i j : ℕ)
    → threads * size < 2 ^ 32
    → i < threads
    → j < size
    → get_string start (get_global_index size i j) + 8 ≤ start + data_bytes size threads
unfolding get_string data_bytes
string_inside start size threads i j fits hi hj =
    omega
      (arith, no_wrap size threads i j (omega (arith, fits)) hi hj, next_block i threads size hi)

-- As long as threads times size is below 2 ^ 32, two calls have one string only if they are one
-- call of one thread, and the eight bytes of each string lie inside of those that calloc was asked
-- for.
pub own_string :
    (start size threads i j k l : ℕ)
    → threads * size < 2 ^ 32
    → i < threads
    → j < size
    → k < threads
    → l < size
    → get_string start (get_global_index size i j) ≡ get_string start (get_global_index size k l)
    → (i ≡ k)
      × (j ≡ l)
      × (get_string start (get_global_index size i j) + 8 ≤ start + data_bytes size threads)
unfolding get_string
own_string start size threads i j k l fits hi hj hk hl same = elim (order i k) [
  | inl less ↦ absurd (
      omega (
        arith,
        same,
        no_wrap size threads i j (omega (arith, fits)) hi hj,
        no_wrap size threads k l (omega (arith, fits)) hk hl,
        next_block i k size less,
      ))
  | inr (inr more) ↦ absurd (
      omega (
        arith,
        same,
        no_wrap size threads i j (omega (arith, fits)) hi hj,
        no_wrap size threads k l (omega (arith, fits)) hk hl,
        next_block k i size more,
      ))
  | inr (inl e) ↦ (
    e,
    omega (
      arith,
      same,
      no_wrap size threads i j (omega (arith, fits)) hi hj,
      no_wrap size threads k l (omega (arith, fits)) hk hl,
      ap (λ n. n * size) e,
    ),
    string_inside start size threads i j fits hi hj,
  )
]
