-- ===== src/Vms/Fault.antt =====
-- vms/src/vms.c: page_fault_handler, with the copy that a write to a shared page makes.
pub mod Steps
pub mod CopyOnWrite
pub mod Handler
pub mod Copied
pub mod Shared
use kernel_modules.Common.{ℕ, ◌+◌, ◌-◌, ◌==◌, if◌then◌else◌}
use kernel_modules.Vms.Machine.{
  M, ◌>>=◌, ◌>>◌, ret, done, load_word, store_word, copy_page, get_ref, set_ref,
}
use kernel_modules.Vms.Pte.{valid, write, custom, write_set, custom_clear, get_ppn, set_ppn}
use kernel_modules.Vms.Pages.{get_page_index, new_page}
use kernel_modules.Vms.PageTable.{pte_entry, ppn_to_page, page_to_ppn}

-- A test or a field of pte.c, read through the pointer.
unfoldable pub read_pte : {A : Type 0} → (ℕ → A) → ℕ → M A
read_pte field entry = do e ← load_word 8 entry; ret (field e)

-- An update of pte.c, made through the pointer.
unfoldable pub update_pte : (ℕ → ℕ) → ℕ → M (Unit {0})
update_pte change entry = do e ← load_word 8 entry; store_word 8 entry (change e)

-- `ref_num[vms_get_page_index(page)]`.
unfoldable pub ref_of : ℕ → M ℕ
ref_of page s = get_ref (get_page_index s page) s

unfoldable pub set_ref_of : ℕ → ℕ → M (Unit {0})
set_ref_of page n s = set_ref (get_page_index s page) n s

-- `if (custom) { write_set; custom_clear; }`: a page that was writable before the fork is so again.
unfoldable pub restore_write : ℕ → M (Unit {0})
restore_write entry = do
  marked ← read_pte custom entry
  if marked then (do update_pte write_set entry; update_pte custom_clear entry) else done

-- The part of the handler for a page with at least two references. `--` runs only at such a count.
unfoldable pub copy_shared : ℕ → M (Unit {0})
copy_shared entry = do
  dst ← new_page
  old ← read_pte get_ppn entry
  let src = ppn_to_page old
  ppn ← page_to_ppn dst
  update_pte (λ e. set_ppn e ppn) entry
  restore_write entry
  copy_page dst src
  before ← ref_of src
  set_ref_of src (before - 1)
  now ← ref_of dst
  set_ref_of dst (now + 1)

-- The handler at an entry that is valid and not writable.
unfoldable pub write_fault : ℕ → M (Unit {0})
write_fault entry = do
  ppn ← read_pte get_ppn entry
  refs ← ref_of (ppn_to_page ppn)
  if refs == 0 then done else if refs == 1 then restore_write entry else copy_shared entry

unfoldable pub page_fault_handler : ℕ → ℕ → ℕ → M (Unit {0})
page_fault_handler virtual_address level page_table = do
  let entry = pte_entry page_table virtual_address level
  present ← read_pte valid entry
  if present
      then (do writable ← read_pte write entry; if writable then done else write_fault entry)
      else done
