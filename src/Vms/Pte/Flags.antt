-- ===== src/Vms/Pte/Flags.antt =====
-- The flags of vms/src/pte.c against the single bits of the word.
use kernel_modules.Common.{
  ℕ, zero, suc, ◌/◌, ◌%◌, ◌<◌, ◌≡◌, refl, bit_and, bit_or, Bool, true, not, ◌&&◌, ◌||◌, ◌==◌,
  if◌then◌else◌, arith, bit_and_digit, bit_or_digit,
}
use kernel_modules.Vms.Pte.{
  valid_clear, valid_set, valid, read_clear, read_set, read, write_clear, write_set, write,
  custom_clear, custom_set, custom, complement,
}
use kernel_modules.Vms.Pte.Arith.{valid_lem, read_lem, write_lem, custom_lem}

-- Bit `j` of a word.
unfoldable pub bit : ℕ → ℕ → Bool
bit e zero = e % 2 == 1
bit e (suc j) = bit (e / 2) j

bit-bit_or : (a b j : ℕ) → bit (bit_or a b) j ≡ bit a j || bit b j
unfolding bit
bit-bit_or a b zero = ground (arith, bit_or_digit a b)
bit-bit_or a b (suc j) = ground (arith, bit_or_digit a b, half, bit-bit_or (a / 2) (b / 2) j)
  where
    half : bit_or a b / 2 ≡ bit_or (a / 2) (b / 2)
    half = omega (arith, bit_or_digit a b)

bit-bit_and : (a b j : ℕ) → bit (bit_and a b) j ≡ bit a j && bit b j
unfolding bit
bit-bit_and a b zero = ground (arith, bit_and_digit a b)
bit-bit_and a b (suc j) = ground (arith, bit_and_digit a b, half, bit-bit_and (a / 2) (b / 2) j)
  where
    half : bit_and a b / 2 ≡ bit_and (a / 2) (b / 2)
    half = omega (arith, bit_and_digit a b)

-- A predicate on the 64 positions is checked at each of them.
all_below : ℕ → (ℕ → Bool) → Bool
all_below zero p = true
all_below (suc n) p = p n && all_below n p

all_below_sound : (n : ℕ) (p : ℕ → Bool) (j : ℕ) → all_below n p ≡ true → j < n → p j ≡ true
unfolding all_below
all_below_sound zero p j all h = absurd (omega arith)
all_below_sound (suc n) p j all h = ground (arith, all_below_sound n p j)

same : Bool → Bool → Bool
same a b = if a then b else not b

same→eq : (a b : Bool) → same a b ≡ true → a ≡ b
unfolding same
same→eq a b h = ground arith

module _ (w : ℕ) (p : ℕ → Bool) where
  mask_bits : (j : ℕ) → all_below 64 (λ i. same (bit w i) (p i)) ≡ true → j < 64 → bit w j ≡ p j
  mask_bits j all h = same→eq _ _ (all_below_sound 64 (λ i. same (bit w i) (p i)) j all h)

module _ (w k e j : ℕ) where
  or_bits :
      all_below 64 (λ i. same (bit w i) (i == k)) ≡ true
      → j < 64
      → bit (bit_or e w) j ≡ j == k || bit e j
  or_bits all h = ground (arith, bit-bit_or e w j, mask_bits w (λ i. i == k) j all h)

  and_bits :
      all_below 64 (λ i. same (bit w i) (not (i == k))) ≡ true
      → j < 64
      → bit (bit_and e w) j ≡ not (j == k) && bit e j
  and_bits all h = ground (arith, bit-bit_and e w j, mask_bits w (λ i. not (i == k)) j all h)

-- What a flag's three functions do at bit `j` of the word, for a flag that stands at bit `k`.
abbrev pub FlagAt : ℕ → (ℕ → ℕ) → (ℕ → ℕ) → (ℕ → Bool) → ℕ → ℕ → Type 0
FlagAt k clear set test e j =
    (bit (set e) j ≡ j == k || bit e j)
    × (bit (clear e) j ≡ not (j == k) && bit e j)
    × (test e ≡ bit e k)

valid-FlagAt : (e j : ℕ) → j < 64 → FlagAt 0 valid_clear valid_set valid e j
unfolding valid_set valid_clear bit all_below same
valid-FlagAt e j h =
    (or_bits 1 0 e j refl h, and_bits (complement 1) 0 e j refl h, ground (arith, valid_lem e))

read-FlagAt : (e j : ℕ) → j < 64 → FlagAt 1 read_clear read_set read e j
unfolding read_set read_clear bit all_below same
read-FlagAt e j h =
    (or_bits 2 1 e j refl h, and_bits (complement 2) 1 e j refl h, ground (arith, read_lem e))

write-FlagAt : (e j : ℕ) → j < 64 → FlagAt 2 write_clear write_set write e j
unfolding write_set write_clear bit all_below same
write-FlagAt e j h =
    (or_bits 4 2 e j refl h, and_bits (complement 4) 2 e j refl h, ground (arith, write_lem e))

custom-FlagAt : (e j : ℕ) → j < 64 → FlagAt 8 custom_clear custom_set custom e j
unfolding custom_set custom_clear bit all_below same
custom-FlagAt e j h =
    (or_bits 256 8 e j refl h, and_bits (complement 256) 8 e j refl h, ground (arith, custom_lem e))

-- At each of the 64 bits of the word: setting a flag gives 1 at the flag's own bit and leaves every
-- other bit as it was, clearing it gives 0 there and leaves every other bit, and the flag reads as
-- set exactly when its bit is 1. The flags are the bits 0 (valid), 1 (read), 2 (write), 8 (custom).
pub flags_at_bits :
    (e j : ℕ)
    → j < 64
    → FlagAt 0 valid_clear valid_set valid e j
      × FlagAt 1 read_clear read_set read e j
      × FlagAt 2 write_clear write_set write e j
      × FlagAt 8 custom_clear custom_set custom e j
flags_at_bits e j h =
    (valid-FlagAt e j h, read-FlagAt e j h, write-FlagAt e j h, custom-FlagAt e j h)
