-- ===== src/Vms/Fault/Handler.antt =====
-- page_fault_handler on each of its branches.
use kernel_modules.Common.{
  ℕ, ◌+◌, ◌≤◌, ◌<◌, ◌≡◌, refl, ◌∙◌, ◌==◌, true, false, some, if◌then◌else◌, ◌⊎◌, inl, inr,
  Bool-cases, get_elem?,
}
use kernel_modules.Vms.Memory.{Memory, load}
use kernel_modules.Vms.Machine.{Machine, ok, done, ◌>>=◌, mapped}
use kernel_modules.Vms.Pte.{custom, write, custom_clear, write_set, get_ppn, valid}
use kernel_modules.Vms.PageTable.{ppn_to_page, pte_entry}
use kernel_modules.Vms.Pages.{get_page_index}
use kernel_modules.Vms.Fault.{write_fault, copy_shared, restore_write, page_fault_handler}
use kernel_modules.Vms.Fault.Steps.{
  restored, after_restore, read_pte_runs, restore_write_runs, load-after_restore,
  after_restore_outside, ref_of_runs,
}

-- An entry whose page has the reference count `refs`.
module _ (s : Machine) (va level pt n refs : ℕ) (here : mapped s (pte_entry pt va level) 8 ≡ true)
    (names : get_page_index s (ppn_to_page (get_ppn (load 8 s.memory (pte_entry pt va level)))) ≡ n)
    (count : get_elem? s.ref_num n ≡ some refs)
    (present : valid (load 8 s.memory (pte_entry pt va level)) ≡ true)
    (protected : write (load 8 s.memory (pte_entry pt va level)) ≡ false) where
  pub to_write_fault : page_fault_handler va level pt s ≡ write_fault (pte_entry pt va level) s
  unfolding page_fault_handler
  to_write_fault = rw (
    read_pte_runs s (pte_entry pt va level) here valid,
    ◌>>=◌,
    present,
    read_pte_runs s (pte_entry pt va level) here write,
    protected,
  )

  pub by_count :
      (r : ℕ)
      → refs ≡ r
      → write_fault (pte_entry pt va level) s
        ≡ (if r == 0
              then done
              else if r == 1
              then restore_write (pte_entry pt va level)
              else copy_shared (pte_entry pt va level))
            s
  unfolding write_fault
  by_count r e = rw (
    read_pte_runs s (pte_entry pt va level) here get_ppn,
    ◌>>=◌,
    ref_of_runs s (ppn_to_page (get_ppn (load 8 s.memory (pte_entry pt va level)))) n refs names
        count,
    e,
  )

-- The index in ref_num of the page that an entry names.
abbrev pub page_index_of : Machine → ℕ → ℕ
page_index_of s e = get_page_index s (ppn_to_page (get_ppn e))

-- The handler changes nothing for an entry that is not valid, that is writable already, or whose
-- page has no counted reference.
pub handler_quiet :
    (s : Machine) (va level pt : ℕ)
    → let e = load 8 s.memory (pte_entry pt va level) in
      mapped s (pte_entry pt va level) 8 ≡ true
      → (valid e ≡ false) ⊎ ((write e ≡ true) ⊎ (get_elem? s.ref_num (page_index_of s e) ≡ some 0))
      → page_fault_handler va level pt s ≡ ok (tt, s)
unfolding page_fault_handler
handler_quiet s va level pt here why =
    elim (Bool-cases (valid (load 8 s.memory (pte_entry pt va level)))) [
      | inr absent ↦ rw (read_pte_runs s _ here valid, ◌>>=◌, absent)
      | inl present ↦ elim (Bool-cases (write (load 8 s.memory (pte_entry pt va level)))) [
        | inl writable ↦
            rw
              (read_pte_runs s _ here valid, ◌>>=◌, present, read_pte_runs s _ here write, writable)
        | inr protected ↦ elim why [
          | inl absent ↦ absurd (cc)
          | inr (inl writable) ↦ absurd (cc)
          | inr (inr count) ↦
              to_write_fault s va level pt _ 0 here refl count present protected
              ∙ by_count s va level pt _ 0 here refl count present protected 0 refl
        ]
      ]
    ]

-- With a single reference the page is not copied: the entry gets back its write flag and loses its
-- mark if it was marked, and keeps its word if it was not; no byte outside the entry and nothing
-- else of the state changes.
pub handler_single :
    (s : Machine) (va level pt : ℕ)
    → let entry = pte_entry pt va level in
      let e = load 8 s.memory entry in
      mapped s entry 8 ≡ true
      → valid e ≡ true
      → write e ≡ false
      → get_elem? s.ref_num (page_index_of s e) ≡ some 1
      → (m : Memory) × (page_fault_handler va level pt s ≡ ok (tt, record s { memory = m }))
        × (load 8 m entry ≡ (if custom e then custom_clear (write_set e) else e))
        × ((b : ℕ) → (b < entry) ⊎ (entry + 8 ≤ b) → m b ≡ s.memory b)
handler_single s va level pt here present protected count = (
  after_restore s.memory (pte_entry pt va level),
  to_write_fault s va level pt _ 1 here refl count present protected
      ∙ by_count s va level pt _ 1 here refl count present protected 1 refl
      ∙ restore_write_runs s (pte_entry pt va level) here,
  (unfold restored in load-after_restore s.memory (pte_entry pt va level)),
  after_restore_outside s.memory (pte_entry pt va level),
)
