-- ===== src/Vms/Tests/Witnesses.antt =====
-- The theorems on vms/src/pte.c, vms/src/page_table.c and vms/src/pages.c at concrete states.
use kernel_modules.Common.{
  ℕ, ◌+◌, ◌*◌, ◌^◌, ◌<◌, ◌%◌, ◌/◌, ◌≤◌, ◌≢◌, ◌≡◌, refl, true, false, ◌⊎◌, ◌∷◌, replicate, get_elem?,
  some, arith,
}
use kernel_modules.Vms.Memory.{store}
use kernel_modules.Vms.Machine.{Machine, ok, stop, exit, assertion, page_size, max_pages}
use kernel_modules.Vms.Pte.{
  valid_set, valid_clear, valid, read_set, read_clear, read, write_set, write_clear, write,
  custom_set, custom_clear, custom, get_ppn, set_ppn,
}
use kernel_modules.Vms.Pte.Flags.{FlagAt, flags_at_bits}
use kernel_modules.Vms.Pages.{get_page_pointer, new_page, free_page}
use kernel_modules.Vms.Pages.Free.{count, IsFirstFree}
use kernel_modules.Vms.Pages.Alloc.{IsValid, taken, freed, new_page_lem, free_page_lem}
use kernel_modules.Vms.PageTable.{ppn_to_page, page_to_ppn}
use kernel_modules.Vms.PageTable.Laws.{page_through_entry}

abbrev pub base_address : ℕ
base_address = 0x7000_0000_0000

-- The first page is a table whose entry 0 names the second page, valid, readable and marked; `refs`
-- references of the second page are counted.
abbrev pub marked : ℕ → Machine
marked refs = record {
  base = base_address;
  memory = store 8 (λ _. 0) base_address ((base_address / 4096 + 1) * 2 ^ 10 + 0x103);
  allocated = true ∷ true ∷ replicate 254 false;
  used = 2;
  root = base_address;
  ref_num = 0 ∷ refs ∷ replicate 254 0;
}

pub marked-IsValid : (refs : ℕ) → IsValid (marked refs)
unfolding count
marked-IsValid refs = record {
  pages = refl;
  refs = refl;
  counted = refl;
  aligned = refl;
  low = omega arith;
}

flags_at_bits_example :
    FlagAt 0 valid_clear valid_set valid 0x15 2
    × FlagAt 1 read_clear read_set read 0x15 2
    × FlagAt 2 write_clear write_set write 0x15 2
    × FlagAt 8 custom_clear custom_set custom 0x15 2
flags_at_bits_example = flags_at_bits 0x15 2 (omega arith)

new_page_lem_example :
    ((i : ℕ) × (new_page (marked 2) ≡ ok (get_page_pointer (marked 2) i, taken (marked 2) i))
      × IsFirstFree (marked 2).allocated i
      × (i < max_pages)
      × ((marked 2).used < max_pages)
      × IsValid (taken (marked 2) i))
    ⊎ ((new_page (marked 2) ≡ stop (exit 12)) × ((marked 2).used ≡ max_pages))
new_page_lem_example = new_page_lem (marked 2) (marked-IsValid 2)

free_page_lem_example :
    ((get_elem? (marked 2).allocated 1 ≡ some true)
      × (free_page (get_page_pointer (marked 2) 1) (marked 2) ≡ ok (tt, freed (marked 2) 1))
      × IsValid (freed (marked 2) 1))
    ⊎ ((get_elem? (marked 2).allocated 1 ≡ some false)
        × (free_page (get_page_pointer (marked 2) 1) (marked 2) ≡ stop assertion))
free_page_lem_example = free_page_lem (marked 2) 1 (marked-IsValid 2) (omega arith)

page_through_entry_example :
    let p = 2 ^ 56 + 2 ^ 12 in
    ((p % page_size ≡ 0)
      × (p < 2 ^ 60)
      × (ppn : ℕ) × (page_to_ppn p (marked 2) ≡ ok (ppn, marked 2))
      × (ppn_to_page (get_ppn (set_ppn 0x1501 ppn)) ≡ p % 2 ^ 56))
    ⊎ (((p % page_size ≢ 0) ⊎ (2 ^ 60 ≤ p)) × (page_to_ppn p (marked 2) ≡ stop assertion))
page_through_entry_example =
    page_through_entry 0x1501 (2 ^ 56 + 2 ^ 12) (marked 2) (omega arith) (omega arith)
