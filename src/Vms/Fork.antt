-- ===== src/Vms/Fork.antt =====
-- vms/src/vms.c: vms_fork_copy and vms_fork_copy_on_write. Each `for` loop is a recursion on the
-- entries that are left, from index `i` on.
pub mod Words
pub mod EntryCopy
pub mod Protect
pub mod Shared
pub mod Written
pub mod Entry
pub mod Table
pub mod Copy
use kernel_modules.Common.{ℕ, zero, suc, ◌+◌, ◌/◌, Bool, leb, if◌then◌else◌}
use kernel_modules.Vms.Machine.{
  M, exit, ◌>>=◌, ◌>>◌, ret, fail, done, max_pages, num_pte_entries, copy_page,
}
use kernel_modules.Vms.Pte.{
  valid, read, write, custom, valid_set, valid_clear, read_set, read_clear, write_set, write_clear,
  custom_set, custom_clear, get_ppn, set_ppn,
}
use kernel_modules.Vms.Pages.{new_page, get_used_pages}
use kernel_modules.Vms.PageTable.{pte_entry_from_index, ppn_to_page, page_to_ppn}
use kernel_modules.Vms.Mmu.{get_root_page_table}
use kernel_modules.Vms.Fault.{read_pte, update_pte, ref_of, set_ref_of}

-- `perror(msg); exit(errno)`; `errno` is what the last call of the C library left.
unfoldable pub error_handler : ℕ → Bool → M (Unit {0})
error_handler errno fine = if fine then done else fail (exit errno)

-- One flag of entry_copy.
unfoldable pub flag_copy : (ℕ → Bool) → (ℕ → ℕ) → (ℕ → ℕ) → ℕ → ℕ → M (Unit {0})
flag_copy flag flag_set flag_clear src dst = do
  on ← read_pte flag src
  if on then update_pte flag_set dst else update_pte flag_clear dst

unfoldable pub entry_copy : ℕ → ℕ → ℕ → M (Unit {0})
entry_copy src dst pointer = do
  ppn ← page_to_ppn pointer
  update_pte (λ e. set_ppn e ppn) dst
  flag_copy custom custom_set custom_clear src dst
  flag_copy write write_set write_clear src dst
  flag_copy read read_set read_clear src dst
  flag_copy valid valid_set valid_clear src dst

-- The page that the entry at `entry` names.
unfoldable pub page_of : ℕ → M ℕ
page_of entry = do ppn ← read_pte get_ppn entry; ret (ppn_to_page ppn)

-- `for (i = 0; i < NUM_PTE_ENTRIES; i++)` over the entries of `src` and `dst`; the body runs at the
-- valid entries of `src`, and gets the addresses of both.
unfoldable pub for_valid : ℕ → ℕ → (ℕ → ℕ → M (Unit {0})) → ℕ → ℕ → M (Unit {0})
for_valid zero i body src dst = done
for_valid (suc n) i body src dst = do
  let rest = for_valid n (i + 1) body src dst
  let src_entry = pte_entry_from_index src i
  present ← read_pte valid src_entry
  if present then body src_entry (pte_entry_from_index dst i) else done
  rest

-- The body of the innermost loop of vms_fork_copy.
unfoldable pub copy_data : ℕ → ℕ → M (Unit {0})
copy_data src_entry dst_entry = do
  dst ← new_page
  src ← page_of src_entry
  entry_copy src_entry dst_entry dst
  copy_page dst src

-- The body of an outer loop of both functions, around the loop `below` on the next tables.
unfoldable pub copy_table : (ℕ → ℕ → M (Unit {0})) → ℕ → ℕ → M (Unit {0})
copy_table below src_entry dst_entry = do
  dst ← new_page
  entry_copy src_entry dst_entry dst
  src ← page_of src_entry
  below src dst

-- The three nested loops, around the innermost body.
unfoldable pub copy_levels : (ℕ → ℕ → M (Unit {0})) → ℕ → ℕ → M (Unit {0})
copy_levels body =
    let l0 = for_valid num_pte_entries 0 body in
    let l1 = for_valid num_pte_entries 0 (copy_table l0) in
    for_valid num_pte_entries 0 (copy_table l1)

-- What both functions do around the innermost body.
unfoldable pub fork_with : (ℕ → ℕ → M (Unit {0})) → ℕ → M ℕ
fork_with body errno = do
  (λ s. error_handler errno (leb (get_used_pages s) (max_pages / 2)) s)
  src ← get_root_page_table
  dst ← new_page
  copy_levels body src dst
  ret dst

unfoldable pub fork_copy : ℕ → M ℕ
fork_copy = fork_with copy_data

-- A writable page becomes read-only and marked in both tables.
unfoldable pub protect : ℕ → ℕ → M (Unit {0})
protect src_entry dst_entry = do
  writable ← read_pte write src_entry
  if writable
      then (do
        update_pte write_clear dst_entry
        update_pte custom_set dst_entry
        update_pte write_clear src_entry
        update_pte custom_set src_entry)
      else done

-- The body of the innermost loop of vms_fork_copy_on_write.
unfoldable pub share_data : ℕ → ℕ → M (Unit {0})
share_data src_entry dst_entry = do
  page ← page_of src_entry
  entry_copy src_entry dst_entry page
  protect src_entry dst_entry
  refs ← ref_of page
  set_ref_of page (refs + 2)

unfoldable pub fork_copy_on_write : ℕ → M ℕ
fork_copy_on_write = fork_with share_data
