-- ===== src/Vms/Tests/Forks.antt =====
-- The theorems on vms_fork_copy_on_write at a concrete state.
use kernel_modules.Common.{
  ℕ, Bool, ◌+◌, ◌*◌, ◌^◌, ◌/◌, ◌≡◌, refl, true, false, ◌<◌, ◌≢◌, sym, ◌∙◌, List, inl, inr, ◌==◌,
  Bool-cases, ◌∷◌, replicate, arith,
}
use mathlib.Core.Path.{subst}
use kernel_modules.Vms.Memory.{Memory, load, store, load-store_apart}
use kernel_modules.Vms.Machine.{Machine, ok}
use kernel_modules.Vms.Pages.{get_page_pointer}
use kernel_modules.Vms.Pages.Free.{IsFirstFree, count}
use kernel_modules.Vms.Pages.Alloc.{IsValid}
use kernel_modules.Vms.PageTable.{pte_entry}
use kernel_modules.Vms.Fault.{page_fault_handler}
use kernel_modules.Vms.Fork.{for_valid, copy_data, share_data}
use kernel_modules.Vms.Fork.Copy.{grown}
use kernel_modules.Vms.Fork.Copy.Table.{word_at, valid_count, NamesUsed, TableCopied}
use kernel_modules.Vms.Fork.Copy.Loop.{table_copied}
use kernel_modules.Vms.Fork.Entry.{at, IsNamed}
use kernel_modules.Vms.Fork.Table.{TableForked, table_forked}
use kernel_modules.Vms.Fork.Written.{Separate, fork_then_write}
use kernel_modules.Vms.Tests.{program}
use kernel_modules.Vms.Tests.Witnesses.{base_address}

-- Entry 0 of the table in page 0 names page 1, readable and writable; page 2 is the table of the
-- fork.
abbrev parent : Machine
parent = record {
  base = base_address;
  memory = store 8 (λ _. 0) base_address ((base_address / 4096 + 1) * 2 ^ 10 + 7);
  allocated = true ∷ true ∷ true ∷ replicate 253 false;
  used = 3;
  root = base_address;
  ref_num = replicate 256 0;
}

parent-IsValid : IsValid parent
unfolding count
parent-IsValid = record {
  pages = refl;
  refs = refl;
  counted = refl;
  aligned = refl;
  low = omega arith;
}

parent_zero : (x : ℕ) → x ≢ 0 → load 8 parent.memory (base_address + 8 * x) ≡ 0
parent_zero x h =
    load-store_apart 8 8 (λ _. 0) (base_address + 8 * x) base_address
      ((base_address / 4096 + 1) * 2 ^ 10 + 7) (inr (omega arith))
    ∙ (unfold load in refl)

parent-IsNamed : (x : ℕ) → x < 512 → IsNamed parent (load 8 parent.memory (base_address + 8 * x))
unfolding program
parent-IsNamed x h = elim (Bool-cases (x == 0)) [
  | inl first ↦
      let eq : 0 ≡ x = ground (arith, first) in
      subst (λ y. IsNamed parent (load 8 parent.memory (base_address + 8 * y))) eq
        (λ on. (1, omega arith, refl))
  | inr other ↦ subst (IsNamed parent) (sym (parent_zero x (ground (arith, other)))) (λ on. cc on)
]

table_forked_example :
    (m : Memory) × (r : List ℕ) × (for_valid 512 0 share_data base_address
        (base_address + 2 * 4096)
        parent
      ≡ ok (tt, at parent m r))
    × TableForked parent base_address (base_address + 2 * 4096) 512 0 m r
unfolding get_page_pointer
table_forked_example =
    table_forked parent 0 2 parent-IsValid (omega arith) (omega arith) (omega arith) parent-IsNamed

fork_then_write_example :
    (t : Machine) × (share_data
        (pte_entry (get_page_pointer parent 0) 0 0)
        (pte_entry (get_page_pointer parent 2) 0 0)
        parent
      ≡ ok (tt, t))
    × (u : Machine) × (page_fault_handler 0 0 (get_page_pointer parent 0) t ≡ ok (tt, u))
    × (j : ℕ) × IsFirstFree parent.allocated j
    × Separate parent 0 0 2 1 j u
unfolding program
fork_then_write_example =
    fork_then_write parent 0 0 2 1 0 parent-IsValid refl refl refl (omega arith) (omega arith)
      (omega arith) refl refl refl (omega arith)

parent-NamesUsed : (x : ℕ) → x < 512 → NamesUsed parent 2 (word_at parent parent.memory 0 x)
unfolding program
parent-NamesUsed x h = elim (Bool-cases (x == 0)) [
  | inl first ↦
      let eq : 0 ≡ x = ground (arith, first) in
      subst (λ y. NamesUsed parent 2 (word_at parent parent.memory 0 y)) eq
        (λ on. (1, refl, omega arith, refl))
  | inr other ↦
      subst (NamesUsed parent 2) (sym (parent_zero x (ground (arith, other)))) (λ on. cc on)
]

parent_count : valid_count parent 0 512 0 ≡ 1
unfolding program valid_count
parent_count = refl

table_copied_example :
    (m : Memory) × (bs : List Bool) × (u : ℕ) × (for_valid 512 0 copy_data base_address
        (base_address + 2 * 4096)
        parent
      ≡ ok (tt, grown parent m bs u))
    × TableCopied parent 0 2 512 0 m bs u
unfolding get_page_pointer
table_copied_example =
    table_copied parent 0 2 parent-IsValid refl refl (omega arith) parent-NamesUsed
      (omega (arith, parent_count))
