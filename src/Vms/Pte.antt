-- ===== src/Vms/Pte.antt =====
-- vms/src/pte.c: the fields of a page table entry, an uint64_t. The C functions update `*entry` in
-- place; here they return the new word, and `Vms.Machine` writes it back.
pub mod Arith
pub mod Flags
pub mod Ppn
use kernel_modules.Common.{ℕ, ◌-◌, ◌*◌, ◌/◌, ◌%◌, ◌^◌, bit_and, bit_or, Bool, not, ◌==◌}

abbrev pub pte_custom : ℕ
pte_custom = 2 ^ 8

abbrev pub pte_write : ℕ
pte_write = 2 ^ 2

abbrev pub pte_read : ℕ
pte_read = 2 ^ 1

abbrev pub pte_valid : ℕ
pte_valid = 2 ^ 0

-- `~x` at 64 bits: an `int` such as `~PTE_VALID` is negative, and is sign-extended.
abbrev pub complement : ℕ → ℕ
complement x = 2 ^ 64 - 1 - x

unfoldable pub valid_clear : ℕ → ℕ
valid_clear entry = bit_and entry (complement pte_valid)

unfoldable pub valid_set : ℕ → ℕ
valid_set entry = bit_or entry pte_valid

unfoldable pub valid : ℕ → Bool
valid entry = not (bit_and entry pte_valid == 0)

unfoldable pub read_clear : ℕ → ℕ
read_clear entry = bit_and entry (complement pte_read)

unfoldable pub read_set : ℕ → ℕ
read_set entry = bit_or entry pte_read

unfoldable pub read : ℕ → Bool
read entry = not (bit_and entry pte_read == 0)

unfoldable pub write_clear : ℕ → ℕ
write_clear entry = bit_and entry (complement pte_write)

unfoldable pub write_set : ℕ → ℕ
write_set entry = bit_or entry pte_write

unfoldable pub write : ℕ → Bool
write entry = not (bit_and entry pte_write == 0)

unfoldable pub custom_clear : ℕ → ℕ
custom_clear entry = bit_and entry (complement pte_custom)

unfoldable pub custom_set : ℕ → ℕ
custom_set entry = bit_or entry pte_custom

unfoldable pub custom : ℕ → Bool
custom entry = not (bit_and entry pte_custom == 0)

-- `((uint64_t)~0 << 20) >> 10`: the 44 bits from bit 10 on.
abbrev pub ppn_mask : ℕ
ppn_mask = (complement 0 * 2 ^ 20) % 2 ^ 64 / 2 ^ 10

unfoldable pub get_ppn : ℕ → ℕ
get_ppn entry = bit_and entry ppn_mask / 2 ^ 10

unfoldable pub set_ppn : ℕ → ℕ → ℕ
set_ppn entry ppn = bit_or (bit_and entry (complement ppn_mask)) ((ppn * 2 ^ 20) % 2 ^ 64 / 2 ^ 10)
