-- ===== src/Vms/Tests.antt =====
-- The scenarios of vms/src/main.c and of one shared page, run in the model.
mod Witnesses
mod Accesses
mod Forks
use kernel_modules.Common.{ℕ, ◌≡◌, refl, false, inl, replicate}
use kernel_modules.Vms.Machine.{
  Machine, M, Result, ok, stop, ◌>>=◌, ◌>>◌, ret, copy_page, mapped, load_word, store_word, get_ref,
  set_ref,
}
use kernel_modules.Vms.Memory.{load, store, copy}
use kernel_modules.Vms.Pte.{
  valid_set, valid_clear, valid, read_set, read_clear, read, write_set, write_clear, write,
  custom_set, custom_clear, custom, get_ppn, set_ppn,
}
use kernel_modules.Vms.Pages.{init, get_page_index, new_page}
use kernel_modules.Vms.PageTable.{pte_entry, ppn_to_page, page_to_ppn}
use kernel_modules.Vms.Fault.{
  read_pte, update_pte, ref_of, set_ref_of, restore_write, copy_shared, write_fault,
  page_fault_handler,
}
use kernel_modules.Vms.Mmu.{
  mmu_round, should_generate_fault, set_root_page_table, mmu, permitted, translate_address,
  vms_write, vms_read,
}
use kernel_modules.Vms.Fork.{flag_copy, entry_copy, page_of, protect, share_data}

-- What a run of the program computes with.
pub program : Unit {0}
unfolding mapped load_word copy_page get_page_index ppn_to_page read_pte ref_of set_ref_of
    restore_write copy_shared write_fault page_fault_handler flag_copy entry_copy page_of protect
    store_word get_ref set_ref load store copy valid_set valid_clear valid read_set read_clear read
    write_set write_clear write custom_set custom_clear custom get_ppn set_ppn init new_page
    pte_entry page_to_ppn update_pte mmu_round should_generate_fault set_root_page_table mmu
    permitted translate_address vms_write vms_read share_data
program = tt

-- The static variables before vms_init.
abbrev pub start : Machine
start = record {
  base = 0;
  memory = λ _. 0;
  allocated = replicate 256 false;
  used = 0;
  root = 0;
  ref_num = replicate 256 0;
}

abbrev pub address : ℕ
address = 0xABC123

abbrev link : ℕ → ℕ → ℕ → M (Unit {0})
link table level page = do
  let entry = pte_entry table address level
  ppn ← page_to_ppn page
  update_pte (λ e. set_ppn e ppn) entry
  update_pte valid_set entry

-- `main` up to vms_set_root_page_table.
abbrev pub setup : M ℕ
setup = do
  init 4096 (inl 0x7000_0000_0000)
  l2 ← new_page
  l1 ← new_page
  l0 ← new_page
  p0 ← new_page
  link l2 2 l1
  link l1 1 l0
  link l0 0 p0
  update_pte read_set (pte_entry l0 address 0)
  update_pte write_set (pte_entry l0 address 0)
  set_root_page_table l2
  ret l2

abbrev value_of : {A : Type 0} → Result (A × Machine) → Result A
value_of (ok (a, s)) = ok a
value_of (stop e) = stop e

main_prints : value_of ((do _ ← setup; vms_write address 1; vms_read address) start) ≡ ok 1
unfolding program
main_prints = refl

-- One entry shared as by the copy on write of a fork: the other table's entry reads the page, a
-- write through the first table then goes to a copy, and the shared page keeps its value.
abbrev shared : M (ℕ × ℕ × ℕ)
shared = do
  l2 ← setup
  vms_write address 1
  other ← new_page
  share_data 0x7000_0000_25E0 (pte_entry other address 0)
  vms_write address 2
  mine ← vms_read address
  theirs ← load_word 4 0x7000_0000_3123
  used ← (λ s. ok (s.used, s))
  ret (mine, theirs, used)

shared_runs : value_of (shared start) ≡ ok (2, 1, 6)
unfolding program
shared_runs = refl
