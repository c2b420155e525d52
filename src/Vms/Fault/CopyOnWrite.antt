-- ===== src/Vms/Fault/CopyOnWrite.antt =====
-- page_fault_handler on a write to a page with several references: the copy on write.
use kernel_modules.Common.{
  ℕ, ◌+◌, ◌-◌, ◌*◌, ◌/◌, ◌<◌, ◌≡◌, ap, ◌∙◌, true, some, arith, get_elem?, set,
}
use kernel_modules.Vms.Memory.{load, store, copy}
use kernel_modules.Vms.Machine.{Machine, ok, ◌>>=◌, ◌>>◌, page_size, max_pages, mapped, copy_page}
use kernel_modules.Vms.Machine.Laws.{copy_page_lem}
use kernel_modules.Vms.Pte.{set_ppn, get_ppn}
use kernel_modules.Vms.PageTable.{ppn_to_page, page_to_ppn}
use kernel_modules.Vms.PageTable.Laws.{page_to_ppn_runs}
use kernel_modules.Vms.Pages.{get_page_pointer, get_page_index, new_page}
use kernel_modules.Vms.Pages.Alloc.{IsValid, taken, pointer_mapped, get_page_index-pointer}
use kernel_modules.Vms.Fault.{read_pte, update_pte, restore_write, ref_of, set_ref_of, copy_shared}
use kernel_modules.Vms.Fault.Steps.{
  after_restore, read_pte_runs, update_pte_runs, restore_write_runs, ref_of_runs, set_ref_of_runs,
}

-- The entry at index `i` of the table in page `k`.
abbrev pub entry_of : Machine → ℕ → ℕ → ℕ
entry_of s k i = get_page_pointer s k + 8 * i

pub entry_mapped :
    (s : Machine) (k i : ℕ)
    → IsValid s
    → k < max_pages
    → i < 512
    → mapped s (entry_of s k i) 8 ≡ true
unfolding mapped get_page_pointer
entry_mapped s k i v hk hi = ground arith

pub pointer_to_ppn :
    (s t : Machine) (j : ℕ)
    → IsValid s
    → j < max_pages
    → page_to_ppn (get_page_pointer s j) t ≡ ok (get_page_pointer s j / page_size, t)
unfolding get_page_pointer
pointer_to_ppn s t j v hj =
    page_to_ppn_runs (s.base + j * page_size) t (omega (arith, v.aligned)) (omega (arith, v.low))

-- The states of the copy of page `n` into the new page `j`, for the entry at `entry`: the page is
-- taken, the entry names it, the write flag is restored, the bytes are copied, the old page has one
-- reference less, the new page one more.
module _ (s : Machine) (entry n j refs old : ℕ) where
  unfoldable pub new_number : ℕ
  new_number = get_page_pointer s j / page_size

  unfoldable pub named : Machine
  unfolding new_number
  named = record (taken s j) {
    memory = store 8 s.memory entry (set_ppn (load 8 s.memory entry) new_number);
  }

  unfoldable pub writable : Machine
  unfolding named
  writable = record (taken s j) { memory = after_restore named.memory entry }

  unfoldable pub filled : Machine
  unfolding writable
  filled = record (taken s j) {
    memory = copy writable.memory (get_page_pointer s j) (get_page_pointer s n) page_size;
  }

  unfoldable pub dropped : Machine
  unfolding filled
  dropped = record (taken s j) { memory = filled.memory; ref_num = set s.ref_num n (refs - 1) }

  unfoldable pub copied : Machine
  unfolding dropped
  copied = record (taken s j) {
    memory = filled.memory;
    ref_num = set (set s.ref_num n (refs - 1)) j (old + 1);
  }

-- The steps of copy_shared from such a state.
module _ (s : Machine) (entry ppn n j refs old : ℕ) (v : IsValid s) (here : mapped s entry 8 ≡ true)
    (hn : n < max_pages) (hj : j < max_pages) (number : get_ppn (load 8 s.memory entry) ≡ ppn)
    (names : ppn_to_page ppn ≡ get_page_pointer s n) (count : get_elem? s.ref_num n ≡ some refs)
    (fresh : get_elem? (set s.ref_num n (refs - 1)) j ≡ some old) where
  step_read : read_pte get_ppn entry (taken s j) ≡ ok (ppn, taken s j)
  unfolding mapped
  step_read = read_pte_runs (taken s j) entry here get_ppn ∙ ap (λ p. ok (p, taken s j)) number

  step_name :
      update_pte (λ e. set_ppn e (new_number s entry n j refs old)) entry (taken s j)
      ≡ ok (tt, named s entry n j refs old)
  unfolding named mapped
  step_name =
      update_pte_runs (taken s j) entry here (λ e. set_ppn e (new_number s entry n j refs old))

  step_restore :
      restore_write entry (named s entry n j refs old) ≡ ok (tt, writable s entry n j refs old)
  unfolding writable mapped
  step_restore = restore_write_runs (named s entry n j refs old) entry here

  step_copy :
      copy_page (get_page_pointer s j) (ppn_to_page ppn) (writable s entry n j refs old)
      ≡ ok (tt, filled s entry n j refs old)
  unfolding filled mapped
  step_copy = rw names (
      copy_page_lem (writable s entry n j refs old) _ _ (pointer_mapped s j v hj)
        (pointer_mapped s n v hn))

  step_count :
      ref_of (ppn_to_page ppn) (filled s entry n j refs old)
      ≡ ok (refs, filled s entry n j refs old)
  unfolding filled get_page_index
  step_count =
      rw names
        (ref_of_runs (filled s entry n j refs old) _ n refs (get_page_index-pointer s n v hn) count)

  step_drop :
      set_ref_of (ppn_to_page ppn) (refs - 1) (filled s entry n j refs old)
      ≡ ok (tt, dropped s entry n j refs old)
  unfolding dropped get_page_index
  step_drop = rw names (
      set_ref_of_runs (filled s entry n j refs old) _ n refs (get_page_index-pointer s n v hn) count
        (refs - 1))

  step_fresh :
      ref_of (get_page_pointer s j) (dropped s entry n j refs old)
      ≡ ok (old, dropped s entry n j refs old)
  unfolding dropped get_page_index
  step_fresh =
      ref_of_runs (dropped s entry n j refs old) _ j old (get_page_index-pointer s j v hj) fresh

  step_add :
      set_ref_of (get_page_pointer s j) (old + 1) (dropped s entry n j refs old)
      ≡ ok (tt, copied s entry n j refs old)
  unfolding copied get_page_index
  step_add =
      set_ref_of_runs (dropped s entry n j refs old) _ j old (get_page_index-pointer s j v hj) fresh
        (old + 1)

  pub copy_shared_runs :
      new_page s ≡ ok (get_page_pointer s j, taken s j)
      → copy_shared entry s ≡ ok (tt, copied s entry n j refs old)
  unfolding copy_shared update_pte copied
  copy_shared_runs run = rw (
    run,
    ◌>>=◌,
    step_read,
    pointer_to_ppn s (taken s j) j v hj,
    step_name,
    ◌>>◌,
    step_restore,
    step_copy,
    step_count,
    step_drop,
    step_fresh,
    step_add,
  )
