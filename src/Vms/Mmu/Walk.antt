-- ===== src/Vms/Mmu/Walk.antt =====
-- The loop of mmu against the walk that it makes: down the levels, with one retry at each.
use kernel_modules.Common.{
  ℕ, zero, suc, ◌+◌, ◌-◌, ◌*◌, ◌≤◌, ◌<◌, ◌≡◌, Bool, true, false, if◌then◌else◌, arith,
}
use mathlib.Core.Path.{ap, ap₂, fun_ext, ◌∙◌}
use kernel_modules.Vms.Machine.{Machine, M, exit, ◌>>=◌, ◌>>◌, ret, fail, load_word}
use kernel_modules.Vms.Pte.{get_ppn}
use kernel_modules.Vms.PageTable.{pte_entry, ppn_to_page}
use kernel_modules.Vms.Fault.{page_fault_handler}
use kernel_modules.Vms.Mmu.{should_generate_fault, mmu_round, mmu_loop, mmu}

-- The entry of one level: as it stands, or as the fault handler left it, if that is no fault.
unfoldable pub resolve : ℕ → ℕ → ℕ → M ℕ
resolve virtual_address level page_table = do
  let entry = pte_entry page_table virtual_address level
  e ← load_word 8 entry
  if should_generate_fault level e
      then (do
        page_fault_handler virtual_address level page_table
        again ← load_word 8 entry
        if should_generate_fault level again then fail (exit 14) else ret again)
      else ret e

-- Down to level 0, whose entry's address is the answer.
unfoldable pub walk : ℕ → ℕ → ℕ → M ℕ
walk virtual_address zero page_table =
    resolve virtual_address 0 page_table >>= λ _. ret (pte_entry page_table virtual_address 0)
walk virtual_address (suc level) page_table =
    resolve virtual_address (suc level) page_table >>= λ e.
    walk virtual_address level (ppn_to_page (get_ppn e))

-- One level with what follows it: `first` without a fault, `second` after a fault that was
-- repaired.
module _ (va level pt : ℕ) (first second : ℕ → M ℕ) where
  one_level : M ℕ
  one_level = do
    let entry = pte_entry pt va level
    e ← load_word 8 entry
    if should_generate_fault level e
        then (do
          page_fault_handler va level pt
          again ← load_word 8 entry
          if should_generate_fault level again then fail (exit 14) else second again)
        else first e

  -- Two rounds of the loop are one level.
  rounds-one_level :
      (loop again : M ℕ) (s : Machine)
      → 0 < level
      → again ≡ mmu_round loop second va level pt true
      → mmu_round again first va level pt false s ≡ one_level s
  unfolding mmu_round one_level
  rounds-one_level loop again s h e = rw e (ground arith)

resolve-one_level :
    (va level pt : ℕ) (next : ℕ → M ℕ) (s : Machine)
    → one_level va level pt next next s ≡ (resolve va level pt >>= next) s
unfolding resolve one_level
resolve-one_level va level pt next s = ground arith

sub_one : (n : ℕ) → suc n - 1 ≡ n
sub_one n = omega arith

-- The loop's step above level 0.
mmu_loop-round :
    (va level pt fuel : ℕ) (faulted : Bool)
    → mmu_loop (suc fuel) va (suc level) pt faulted
      ≡ mmu_round
          (mmu_loop fuel va (suc level) pt true)
          (λ e. mmu_loop fuel va level (ppn_to_page (get_ppn e)) false)
          va
          (suc level)
          pt
          faulted
unfolding mmu_loop
mmu_loop-round va level pt fuel faulted =
    ap
      (λ l.
        mmu_round (mmu_loop fuel va (suc level) pt true)
          (λ e. mmu_loop fuel va l (ppn_to_page (get_ppn e)) false) va (suc level) pt faulted)
      (sub_one level)

mmu_loop-walk :
    (level fuel va pt : ℕ) (s : Machine)
    → 2 * level + 2 ≤ fuel
    → mmu_loop fuel va level pt false s ≡ walk va level pt s
mmu_loop-walk level zero va pt s h = absurd (omega arith)
mmu_loop-walk level (suc zero) va pt s h = absurd (omega arith)
mmu_loop-walk zero (suc (suc fuel)) va pt s h =
    unfold mmu_loop mmu_round walk resolve in ground arith
mmu_loop-walk (suc level) (suc (suc fuel)) va pt s h =
    ap (λ m. m s) (mmu_loop-round va level pt (suc fuel) false)
    ∙ rounds-one_level va (suc level) pt
        (λ e. mmu_loop (suc fuel) va level (ppn_to_page (get_ppn e)) false)
        (λ e. mmu_loop fuel va level (ppn_to_page (get_ppn e)) false)
        (mmu_loop fuel va (suc level) pt true) (mmu_loop (suc fuel) va (suc level) pt true) s
        (omega arith) (mmu_loop-round va level pt fuel true)
    ∙ ap₂ (λ first second. one_level va (suc level) pt first second s)
        (fun_ext (λ e. fun_ext (λ t. mmu_loop-walk level (suc fuel) va _ t (omega arith))))
        (fun_ext (λ e. fun_ext (λ t. mmu_loop-walk level fuel va _ t (omega arith))))
    ∙ unfold walk in
      resolve-one_level va (suc level) pt (λ e. walk va level (ppn_to_page (get_ppn e))) s

-- From every state and for every address, mmu makes the walk from the root over the three levels:
-- at each level at most one fault is handed to the handler and the entry read again, a second fault
-- exits with EFAULT, and the answer is the address of the level 0 entry. So the six rounds of fuel
-- never run out.
pub mmu-walk : (va : ℕ) (s : Machine) → mmu va s ≡ walk va 2 s.root s
unfolding mmu
mmu-walk va s = mmu_loop-walk 2 6 va s.root s (omega arith)
