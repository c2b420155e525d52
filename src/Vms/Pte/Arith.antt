-- ===== src/Vms/Pte/Arith.antt =====
-- The operations of vms/src/pte.c as arithmetic, in the form that linear arithmetic reads.
use kernel_modules.Common.{
  ℕ, suc, ◌+◌, ◌-◌, ◌*◌, ◌/◌, ◌%◌, ◌^◌, ◌<◌, ◌≡◌, bit_and, bit_or, ◌==◌, arith, bit_and_digit,
  bit_and_split, bit_and_low, bit_and_high, bit_and-one, bit_or-one, bit_and-ones, bit_or_split,
  bit_or_left_zero, bit_or_right_zero,
}
use kernel_modules.Vms.Pte.{
  valid_clear, valid_set, valid, read_clear, read_set, read, write_clear, write_set, write,
  custom_clear, custom_set, custom, get_ppn, set_ppn,
}
use native.Mathlib.Nat.{pow-suc, one-le-pow}

-- One flag at bit `k` of the word `q * 2 ^ k + l`.
set_flag : (k q l : ℕ) → l < 2 ^ k → bit_or (q * 2 ^ k + l) (2 ^ k) ≡ (q / 2 * 2 + 1) * 2 ^ k + l
set_flag k q l h = ground (
  arith,
  bit_or_split k q 1 l 0 h (omega (arith, one-le-pow k 2)),
  bit_or-one q,
  bit_or_right_zero l,
)

test_flag : (k q l : ℕ) → l < 2 ^ k → bit_and (q * 2 ^ k + l) (2 ^ k) ≡ q % 2 * 2 ^ k
test_flag k q l h = ground (arith, bit_and_high k q l 1 h, bit_and-one q)

-- The mask has `suc n` digits above bit `k`, all ones but the lowest.
clear_flag :
    (k n q l : ℕ)
    → l < 2 ^ k
    → q < 2 ^ suc n
    → bit_and (q * 2 ^ k + l) ((2 ^ suc n - 2) * 2 ^ k + (2 ^ k - 1)) ≡ q / 2 * 2 * 2 ^ k + l
clear_flag k n q l h g = ground (
  arith,
  bit_and_split k q (2 ^ suc n - 2) l (2 ^ k - 1) h (omega (arith, one-le-pow k 2)),
  bit_and_digit q (2 ^ suc n - 2),
  pow-suc 2 n,
  one-le-pow n 2,
  bit_and-ones n (q / 2) (omega (arith, pow-suc 2 n)),
  bit_and-ones k l h,
)

pub valid_lem : (e : ℕ) → valid e ≡ (e / 1 % 2 == 1)
unfolding valid
valid_lem e = ground (arith, test_flag 0 e 0 (omega arith))

pub valid_set_lem : (e : ℕ) → valid_set e ≡ e / 2 * 2 + 1 + e % 1
unfolding valid_set
valid_set_lem e = ground (arith, set_flag 0 e 0 (omega arith))

pub valid_clear_lem : (e : ℕ) → e < 2 ^ 64 → valid_clear e ≡ e / 2 * 2 + e % 1
unfolding valid_clear
valid_clear_lem e h = ground (arith, clear_flag 0 63 e 0 (omega arith) (omega arith))

pub read_lem : (e : ℕ) → read e ≡ (e / 2 % 2 == 1)
unfolding read
read_lem e = ground (arith, test_flag 1 (e / 2) (e % 2) (omega arith))

pub read_set_lem : (e : ℕ) → read_set e ≡ e / 4 * 4 + 2 + e % 2
unfolding read_set
read_set_lem e = ground (arith, set_flag 1 (e / 2) (e % 2) (omega arith))

pub read_clear_lem : (e : ℕ) → e < 2 ^ 64 → read_clear e ≡ e / 4 * 4 + e % 2
unfolding read_clear
read_clear_lem e h = ground (arith, clear_flag 1 62 (e / 2) (e % 2) (omega arith) (omega arith))

pub write_lem : (e : ℕ) → write e ≡ (e / 4 % 2 == 1)
unfolding write
write_lem e = ground (arith, test_flag 2 (e / 4) (e % 4) (omega arith))

pub write_set_lem : (e : ℕ) → write_set e ≡ e / 8 * 8 + 4 + e % 4
unfolding write_set
write_set_lem e = ground (arith, set_flag 2 (e / 4) (e % 4) (omega arith))

pub write_clear_lem : (e : ℕ) → e < 2 ^ 64 → write_clear e ≡ e / 8 * 8 + e % 4
unfolding write_clear
write_clear_lem e h = ground (arith, clear_flag 2 61 (e / 4) (e % 4) (omega arith) (omega arith))

pub custom_lem : (e : ℕ) → custom e ≡ (e / 256 % 2 == 1)
unfolding custom
custom_lem e = ground (arith, test_flag 8 (e / 256) (e % 256) (omega arith))

pub custom_set_lem : (e : ℕ) → custom_set e ≡ e / 512 * 512 + 256 + e % 256
unfolding custom_set
custom_set_lem e = ground (arith, set_flag 8 (e / 256) (e % 256) (omega arith))

pub custom_clear_lem : (e : ℕ) → e < 2 ^ 64 → custom_clear e ≡ e / 512 * 512 + e % 256
unfolding custom_clear
custom_clear_lem e h =
    ground (arith, clear_flag 8 55 (e / 256) (e % 256) (omega arith) (omega arith))

pub get_ppn_lem : (e : ℕ) → get_ppn e ≡ e / 2 ^ 10 % 2 ^ 44
unfolding get_ppn
get_ppn_lem e = ground (
  arith,
  bit_and_high 10 (e / 2 ^ 10) (e % 2 ^ 10) (2 ^ 44 - 1) (omega arith),
  bit_and_low 44 (e / 2 ^ 54) (e / 2 ^ 10 % 2 ^ 44) (omega arith),
)

-- The old number is dropped and the new one, cut to 44 bits, put in its place.
pub set_ppn_lem :
    (e p : ℕ) → e < 2 ^ 64 → set_ppn e p ≡ e / 2 ^ 54 * 2 ^ 54 + p % 2 ^ 44 * 2 ^ 10 + e % 2 ^ 10
unfolding set_ppn
set_ppn_lem e p h = ground (
  arith,
  bit_and_split 54 (e / 2 ^ 54) (2 ^ 10 - 1) (e % 2 ^ 54) (2 ^ 10 - 1) (omega arith) (omega arith),
  bit_and-ones 10 (e / 2 ^ 54) (omega arith),
  bit_and_low 10 (e % 2 ^ 54 / 2 ^ 10) (e % 2 ^ 10) (omega arith),
  bit_or_split 54 (e / 2 ^ 54) 0 (e % 2 ^ 10) (p % 2 ^ 44 * 2 ^ 10) (omega arith) (omega arith),
  bit_or_right_zero (e / 2 ^ 54),
  bit_or_split 10 0 (p % 2 ^ 44) (e % 2 ^ 10) 0 (omega arith) (omega arith),
  bit_or_left_zero (p % 2 ^ 44),
  bit_or_right_zero (e % 2 ^ 10),
)
