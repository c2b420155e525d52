-- ===== src/Vms/Mmu/Invalid.antt =====
-- An address for which some table of the walk has no valid entry: mmu exits, and nothing is
-- changed.
use kernel_modules.Common.{
  ℕ, zero, suc, ◌≡◌, ◌∙◌, Bool, true, false, not, ◌&&◌, arith, Bool-cases, if◌then◌else◌, inl, inr,
}
use kernel_modules.Vms.Memory.{load}
use kernel_modules.Vms.Machine.{Machine, exit, ok, stop, ◌>>=◌, ◌>>◌, mapped}
use kernel_modules.Vms.Machine.Laws.{load_word_lem}
use kernel_modules.Vms.Pte.{valid, get_ppn}
use kernel_modules.Vms.PageTable.{pte_entry, ppn_to_page}
use kernel_modules.Vms.Fault.{read_pte, page_fault_handler}
use kernel_modules.Vms.Mmu.{should_generate_fault, mmu, vms_read, vms_write}
use kernel_modules.Vms.Mmu.Walk.{resolve, walk, mmu-walk}
use kernel_modules.Vms.Mmu.Access.{clear_at, resolve_clear}

-- The entries down to some level are clear, and the one there is not valid.
unfoldable pub is_unmapped : Machine → ℕ → ℕ → ℕ → Bool
is_unmapped s va zero pt =
    let a = pte_entry pt va 0 in mapped s a 8 && not (valid (load 8 s.memory a))
is_unmapped s va (suc level) pt =
    let a = pte_entry pt va (suc level) in
    let below = is_unmapped s va level (ppn_to_page (get_ppn (load 8 s.memory a))) in
    mapped s a 8 && (if valid (load 8 s.memory a) then clear_at s (suc level) a && below else true)

module _ (s : Machine) (va level pt : ℕ) (here : mapped s (pte_entry pt va level) 8 ≡ true)
    (absent : valid (load 8 s.memory (pte_entry pt va level)) ≡ false) where
  handler_ignores : page_fault_handler va level pt s ≡ ok (tt, s)
  unfolding page_fault_handler read_pte
  handler_ignores = rw (load_word_lem s 8 _ here, ◌>>=◌, absent)

  resolve_invalid : resolve va level pt s ≡ stop (exit 14)
  unfolding resolve should_generate_fault
  resolve_invalid =
      rw (load_word_lem s 8 _ here, ◌>>=◌, absent, handler_ignores, ◌>>◌)
        (rw (load_word_lem s 8 _ here, ◌>>=◌, absent))

-- On a walk that meets an invalid entry, mmu exits with EFAULT.
walk_unmapped :
    (s : Machine) (va level pt : ℕ)
    → is_unmapped s va level pt ≡ true
    → walk va level pt s ≡ stop (exit 14)
unfolding is_unmapped walk
walk_unmapped s va zero pt h = rw (resolve_invalid s va 0 pt (ground arith) (ground arith), ◌>>=◌)
walk_unmapped s va (suc level) pt h =
    elim (Bool-cases (valid (load 8 s.memory (pte_entry pt va (suc level))))) [
      | inr absent ↦ rw (resolve_invalid s va (suc level) pt (ground arith) absent, ◌>>=◌)
      | inl present ↦
          rw (resolve_clear s va (suc level) pt (ground (arith, present)), ◌>>=◌)
            (walk_unmapped s va level _ (ground (arith, present)))
    ]

-- If the walk for an address meets an entry that is not valid, after entries that need no fault,
-- then vms_read and vms_write of that address both exit with EFAULT (14), whatever the value.
pub access_unmapped :
    (s : Machine) (va value : ℕ)
    → is_unmapped s va 2 s.root ≡ true
    → (vms_read va s ≡ stop (exit 14)) × (vms_write va value s ≡ stop (exit 14))
unfolding vms_read vms_write
access_unmapped s va value h =
    let exits : mmu va s ≡ stop (exit 14) = mmu-walk va s ∙ walk_unmapped s va 2 s.root h in
    (rw (exits, ◌>>=◌), rw (exits, ◌>>=◌))
