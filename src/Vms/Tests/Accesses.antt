-- ===== src/Vms/Tests/Accesses.antt =====
-- The theorems on vms/src/vms.c and vms/src/mmu.c at concrete states.
use kernel_modules.Common.{
  ℕ, ◌+◌, ◌*◌, ◌^◌, ◌/◌, ◌≡◌, refl, true, false, inl, inr, ◌∷◌, replicate, arith,
}
use kernel_modules.Vms.Memory.{load, store}
use kernel_modules.Vms.Machine.{Machine, ok, stop, exit, ◌>>◌}
use kernel_modules.Vms.Pages.{get_page_pointer}
use kernel_modules.Vms.Pages.Free.{IsFirstFree}
use kernel_modules.Vms.PageTable.{pte_entry}
use kernel_modules.Vms.Fault.{page_fault_handler}
use kernel_modules.Vms.Fault.Copied.{CopiedPage}
use kernel_modules.Vms.Fault.Shared.{handler_shared}
use kernel_modules.Vms.Mmu.{mmu, vms_read, vms_write}
use kernel_modules.Vms.Mmu.Walk.{walk, mmu-walk}
use kernel_modules.Vms.Mmu.Access.{lookup, walked}
use kernel_modules.Vms.Mmu.RoundTrip.{stored, read-write, read-write_other}
use kernel_modules.Vms.Mmu.Invalid.{is_unmapped, access_unmapped}
use kernel_modules.Vms.Tests.{program, address}
use kernel_modules.Vms.Tests.Witnesses.{base_address, marked, marked-IsValid}

handler_shared_example :
    (j : ℕ) × IsFirstFree (marked 2).allocated j
    × (t : Machine) × (page_fault_handler 0 0 (get_page_pointer (marked 2) 0) (marked 2)
        ≡ ok (tt, t))
    × CopiedPage (marked 2) (pte_entry (get_page_pointer (marked 2) 0) 0 0) 1 j 2 t
unfolding program
handler_shared_example =
    handler_shared (marked 2) 0 0 1 2 (marked-IsValid 2) refl refl (omega arith) refl refl refl refl
      (omega arith) (omega arith)

-- The page table of page 0 alone, in which every address under test is not valid at level 2.
access_unmapped_example :
    (vms_read address (record (marked 2) { memory = λ _. 0 }) ≡ stop (exit 14))
    × (vms_write address 7 (record (marked 2) { memory = λ _. 0 }) ≡ stop (exit 14))
unfolding program is_unmapped
access_unmapped_example = access_unmapped (record (marked 2) { memory = λ _. 0 }) address 7 refl

mmu-walk_example : mmu address (marked 2) ≡ walk address 2 base_address (marked 2)
mmu-walk_example = mmu-walk address (marked 2)

-- Address 0 through three tables in the first three pages to the fourth.
abbrev tables : Machine
tables = record (marked 0) {
  memory =
      store 8
        (store 8 (store 8 (λ _. 0) base_address ((base_address / 4096 + 1) * 2 ^ 10 + 1))
          (base_address + 4096) ((base_address / 4096 + 2) * 2 ^ 10 + 1))
        (base_address + 2 * 4096) ((base_address / 4096 + 3) * 2 ^ 10 + 7);
  allocated = true ∷ true ∷ true ∷ true ∷ replicate 252 false;
  used = 4;
}

read-write_example :
    (vms_write 0x10 77 >> vms_read 0x10) tables
    ≡ ok (77, stored tables (base_address + 3 * 4096 + 0x10) 77)
unfolding program lookup walked
read-write_example =
    read-write tables 0x10 (base_address + 2 * 4096) (base_address + 3 * 4096 + 0x10) 77
      (refl, refl, refl) (inl (omega arith), (inl (omega arith), (inl (omega arith), tt))) refl refl
      (omega arith)

read-write_other_example :
    (vms_write 0x10 77 >> vms_read 0x20) tables
    ≡ ok (
      load 4 tables.memory (base_address + 3 * 4096 + 0x20),
      stored tables (base_address + 3 * 4096 + 0x10) 77,
    )
unfolding program lookup walked
read-write_other_example =
    read-write_other tables 0x10 (base_address + 2 * 4096) (base_address + 3 * 4096 + 0x10) 77 0x20
      (base_address + 2 * 4096) (base_address + 3 * 4096 + 0x20) (refl, refl, refl) refl
      (refl, refl, refl) refl (inl (omega arith), (inl (omega arith), (inl (omega arith), tt)))
      (inr (omega arith))
