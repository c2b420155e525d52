-- ===== src/Vms/PageTable.antt =====
-- vms/src/page_table.c: indices, entries and page numbers.
pub mod Laws
use kernel_modules.Common.{ℕ, ◌+◌, ◌*◌, ◌/◌, ◌%◌, ◌^◌, ◌==◌, bit_and}
use kernel_modules.Vms.Machine.{M, ◌>>◌, ret, assert}
use kernel_modules.Vms.Pages.{check_page_aligned}

abbrev pub index_bits : ℕ
index_bits = 9

abbrev pub offset_bits : ℕ
offset_bits = 12

-- `start_bit` is an uint8_t, the result an uint16_t. A shift is written as a product or quotient.
unfoldable pub index : ℕ → ℕ → ℕ
index virtual_address level =
    let start_bit = (index_bits * level + offset_bits) % 2 ^ 8 in
    let mask = (0x1FF * 2 ^ start_bit) % 2 ^ 64 in
    bit_and mask virtual_address / 2 ^ start_bit % 2 ^ 16

-- The address of the entry, an uint64_t.
unfoldable pub pte_entry_from_index : ℕ → ℕ → ℕ
pte_entry_from_index page_table i = page_table + 8 * i

unfoldable pub pte_entry : ℕ → ℕ → ℕ → ℕ
unfolding index pte_entry_from_index
pte_entry page_table virtual_address level =
    pte_entry_from_index page_table (index virtual_address level)

unfoldable pub ppn_to_page : ℕ → ℕ
ppn_to_page ppn = (ppn * 2 ^ offset_bits) % 2 ^ 64

unfoldable pub page_to_ppn : ℕ → M ℕ
unfolding check_page_aligned
page_to_ppn pointer = do
  check_page_aligned pointer
  assert (bit_and pointer 0xF000000000000000 == 0)
  ret (pointer / 2 ^ offset_bits)
