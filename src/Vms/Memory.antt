-- ===== src/Vms/Memory.antt =====
-- Byte-addressed memory, as vms/src reads and writes it: little-endian words, memcpy and memset.
-- A memory is a function from addresses to bytes; a number stands for the byte that it is mod 256.
use kernel_modules.Common.{
  ℕ, zero, suc, ◌+◌, ◌-◌, ◌*◌, ◌/◌, ◌%◌, ◌^◌, ◌≤◌, ◌<◌, ◌≡◌, refl, ◌⊎◌, inl, ◌&&◌, ◌==◌, ltb, leb,
  if◌then◌else◌, arith,
}
use native.Mathlib.Nat.{pow-suc}

abbrev pub Memory : Type 0
Memory = ℕ → ℕ

unfoldable pub put : Memory → ℕ → ℕ → Memory
put m a v b = if b == a then v else m b

-- `n` bytes from address `a` on, the lowest first.
unfoldable pub load : ℕ → Memory → ℕ → ℕ
load zero m a = 0
load (suc n) m a = m a % 256 + 256 * load n m (a + 1)

unfoldable pub store : ℕ → Memory → ℕ → ℕ → Memory
unfolding put
store zero m a v = m
store (suc n) m a v = store n (put m a (v % 256)) (a + 1) (v / 256)

-- `memcpy(dst, src, n)`, of areas that do not meet.
unfoldable pub copy : Memory → ℕ → ℕ → ℕ → Memory
copy m dst src n b = if leb dst b && ltb b (dst + n) then m (src + (b - dst)) else m b

-- `memset(p, 0, n)`.
unfoldable pub clear : Memory → ℕ → ℕ → Memory
clear m p n b = if leb p b && ltb b (p + n) then 0 else m b

pub load-lt : (n : ℕ) (m : Memory) (a : ℕ) → load n m a < 256 ^ n
unfolding load
load-lt zero m a = omega arith
load-lt (suc n) m a = omega (arith, pow-suc 256 n, load-lt n m (a + 1))

-- A load sees only its own bytes.
pub load_congr :
    (n : ℕ) (m w : Memory) (a c : ℕ)
    → ((i : ℕ) → i < n → m (a + i) ≡ w (c + i))
    → load n m a ≡ load n w c
unfolding load
load_congr zero m w a c h = refl
load_congr (suc n) m w a c h =
    ground (arith, h 0, load_congr n m w (a + 1) (c + 1) (λ i p. ground (arith, h (i + 1))))

-- A store leaves the bytes outside its own alone.
pub store_outside : (n : ℕ) (m : Memory) (a v b : ℕ) → (b < a) ⊎ (a + n ≤ b) → store n m a v b ≡ m b
unfolding store
store_outside zero m a v b h = refl
store_outside (suc n) m a v b h =
    ground (arith, store_outside n (put m a (v % 256)) (a + 1) (v / 256) b)

pub load-store_self : (n : ℕ) (m : Memory) (a v : ℕ) → v < 256 ^ n → load n (store n m a v) a ≡ v
unfolding load store
load-store_self zero m a v h = omega arith
load-store_self (suc n) m a v h = ground (
  arith,
  pow-suc 256 n,
  store_outside n (put m a (v % 256)) (a + 1) (v / 256) a (inl (omega arith)),
  load-store_self n (put m a (v % 256)) (a + 1) (v / 256) (omega (arith, pow-suc 256 n)),
)

-- A store leaves a load of other bytes alone.
pub load-store_apart :
    (k n : ℕ) (m : Memory) (b a v : ℕ)
    → (b + k ≤ a) ⊎ (a + n ≤ b)
    → load k (store n m a v) b ≡ load k m b
load-store_apart k n m b a v h =
    load_congr k (store n m a v) m b b (λ i p. store_outside n m a v (b + i) (omega arith))

-- A copied word reads as the source's, and a word outside the destination as before.
pub load-copy_inside :
    (k : ℕ) (m : Memory) (dst src n i : ℕ)
    → i + k ≤ n
    → load k (copy m dst src n) (dst + i) ≡ load k m (src + i)
load-copy_inside k m dst src n i h =
    load_congr k (copy m dst src n) m (dst + i) (src + i) (λ j p. byte j (omega arith))
  where
    byte : (j : ℕ) → i + j < n → copy m dst src n (dst + i + j) ≡ m (src + i + j)
    byte j p = unfold copy in ground arith

pub load-copy_outside :
    (k : ℕ) (m : Memory) (b dst src n : ℕ)
    → (b + k ≤ dst) ⊎ (dst + n ≤ b)
    → load k (copy m dst src n) b ≡ load k m b
load-copy_outside k m b dst src n h =
    load_congr k (copy m dst src n) m b b (λ j p. unfold copy in ground arith)

pub load-clear_outside :
    (k : ℕ) (m : Memory) (b p n : ℕ)
    → (b + k ≤ p) ⊎ (p + n ≤ b)
    → load k (clear m p n) b ≡ load k m b
load-clear_outside k m b p n h =
    load_congr k (clear m p n) m b b (λ j q. unfold clear in ground arith)
