-- ===== src/Vms/Mmu.antt =====
-- vms/src/mmu.c: the walk of the page tables and the two accesses. The text that
-- print_fatal_page_fault prints is left out: it reads the entry and changes nothing.
pub mod Walk
pub mod Access
pub mod RoundTrip
pub mod Invalid
use kernel_modules.Common.{
  ℕ, zero, suc, ◌-◌, bit_and, bit_or, Bool, true, false, not, ◌&&◌, ◌||◌, ◌==◌, if◌then◌else◌,
}
use kernel_modules.Vms.Machine.{
  M, exit, out_of_fuel, ok, ◌>>=◌, ◌>>◌, ret, fail, done, load_word, store_word,
}
use kernel_modules.Vms.Pte.{valid, read, write, get_ppn, complement}
use kernel_modules.Vms.PageTable.{pte_entry, ppn_to_page}
use kernel_modules.Vms.Pages.{check_page_aligned}
use kernel_modules.Vms.Fault.{read_pte, page_fault_handler}

-- MMU_LEVELS - 1.
abbrev pub top_level : ℕ
top_level = 2

unfoldable pub should_generate_fault : ℕ → ℕ → Bool
should_generate_fault level e =
    if not (valid e)
    then true
    else if not (level == 0) && (read e || write e)
    then true
    else if level == 0 && not (read e) && not (write e)
    then true
    else false

unfoldable pub get_root_page_table : M ℕ
get_root_page_table s = ok (s.root, s)

unfoldable pub set_root_page_table : ℕ → M (Unit {0})
unfolding check_page_aligned
set_root_page_table page_table = do
  check_page_aligned page_table
  (λ s. ok (tt, record s { root = page_table }))

-- The body of mmu's loop. `again` is the loop at the same level after a fault, `down` the loop at
-- the next level, from the entry. The exit code is EFAULT.
unfoldable pub mmu_round : M ℕ → (ℕ → M ℕ) → ℕ → ℕ → ℕ → Bool → M ℕ
mmu_round again down virtual_address level page_table faulted = do
  let entry = pte_entry page_table virtual_address level
  e ← load_word 8 entry
  if should_generate_fault level e
      then (if faulted
          then fail (exit 14)
          else (page_fault_handler virtual_address level page_table >> again))
      else (if level == 0 then ret entry else down e)

-- The loop: a fault repeats the level once, with `faulted` set.
unfoldable pub mmu_loop : ℕ → ℕ → ℕ → ℕ → Bool → M ℕ
mmu_loop zero virtual_address level page_table faulted = fail out_of_fuel
mmu_loop (suc fuel) virtual_address level page_table faulted =
    let again = mmu_loop fuel virtual_address level page_table true in
    let down =
      λ (e : ℕ). mmu_loop fuel virtual_address (level - 1) (ppn_to_page (get_ppn e)) false in
    mmu_round again down virtual_address level page_table faulted

-- Two rounds for each level.
unfoldable pub mmu_fuel : ℕ
mmu_fuel = 6

unfoldable pub mmu : ℕ → M ℕ
unfolding mmu_loop mmu_fuel
mmu virtual_address s = mmu_loop mmu_fuel virtual_address top_level s.root false s

-- The offset is `va & 0xFFF`.
unfoldable pub translate_address : ℕ → ℕ → M ℕ
unfolding read_pte ppn_to_page
translate_address virtual_address entry = do
  ppn ← read_pte get_ppn entry
  ret (bit_or (ppn_to_page ppn) (bit_and virtual_address 0xFFF))

-- `entry & ~0xFFF`.
unfoldable pub get_base_page : ℕ → ℕ
get_base_page entry = bit_and entry (complement 0xFFF)

-- The start of vms_write and of vms_read: the entry with the permission `may`, asked for a second
-- time after a fault.
unfoldable pub permitted : (ℕ → Bool) → ℕ → ℕ → M (Unit {0})
unfolding read_pte get_base_page page_fault_handler
permitted may virtual_address entry = do
  first ← read_pte may entry
  if first then done else do
    page_fault_handler virtual_address 0 (get_base_page entry)
    second ← read_pte may entry
    if second then done else fail (exit 14)

-- `value` is the bit pattern of an int, below 2 ^ 32; the `vms_` prefix tells the access from the
-- flag of pte.c.
unfoldable pub vms_write : ℕ → ℕ → M (Unit {0})
vms_write virtual_address value = do
  entry ← mmu virtual_address
  permitted write virtual_address entry
  pointer ← translate_address virtual_address entry
  store_word 4 pointer value

unfoldable pub vms_read : ℕ → M ℕ
vms_read virtual_address = do
  entry ← mmu virtual_address
  permitted read virtual_address entry
  pointer ← translate_address virtual_address entry
  load_word 4 pointer
