-- ===== src/Vms/Fault/Copied.antt =====
-- page_fault_handler with several references: the observable effect of the copied state.
use kernel_modules.Common.{
  ℕ, ◌+◌, ◌-◌, ◌/◌, ◌^◌, ◌≤◌, ◌<◌, ◌≡◌, ap, ◌∙◌, true, some, arith, ◌⊎◌, inl, inr, Bool-cases,
  get_elem?, set,
}
use kernel_modules.Vms.Memory.{
  Memory, load, store, copy, load-store_self, store_outside, load-copy_outside,
}
use kernel_modules.Vms.Machine.{Machine, page_size, max_pages}
use kernel_modules.Vms.Pte.{custom, write_set, set_ppn, get_ppn}
use kernel_modules.Vms.Pte.Ppn.{set_ppn_fields, get_ppn_flags}
use kernel_modules.Vms.Pte.Arith.{write_set_lem}
use kernel_modules.Vms.PageTable.{ppn_to_page}
use kernel_modules.Vms.PageTable.Laws.{ppn_through_entry}
use kernel_modules.Vms.Pages.{get_page_pointer}
use kernel_modules.Vms.Pages.Alloc.{IsValid, pointer_aligned}
use kernel_modules.Vms.Fault.Steps.{
  restored, after_restore, load-after_restore, after_restore_outside, load-lt_word,
}
use kernel_modules.Vms.Fault.CopyOnWrite.{copied}

copy_byte : (m : Memory) (dst src n i : ℕ) → i < n → copy m dst src n (dst + i) ≡ m (src + i)
unfolding copy
copy_byte m dst src n i h = ground arith

copy_byte_outside :
    (m : Memory) (dst src n b : ℕ) → (b < dst) ⊎ (dst + n ≤ b) → copy m dst src n b ≡ m b
unfolding copy
copy_byte_outside m dst src n b h = ground arith

-- What the copy of page `n` into page `j`, for the entry at `entry`, leaves behind.
pub record CopiedPage (s : Machine) (entry n j refs : ℕ) (t : Machine) : Type 0 where
  -- The entry names the new page, is no longer marked, and is writable if it was marked.
  pub names_copy : ppn_to_page (get_ppn (load 8 t.memory entry)) ≡ get_page_pointer s j
  pub entry_now :
      load 8 t.memory entry
      ≡ restored (set_ppn (load 8 s.memory entry) (get_page_pointer s j / page_size))
  -- The new page has the bytes of the old one; all bytes elsewhere are kept.
  pub bytes :
      (i : ℕ)
      → i < page_size
      → t.memory (get_page_pointer s j + i) ≡ s.memory (get_page_pointer s n + i)
  pub others :
      (b : ℕ)
      → (b < entry) ⊎ (entry + 8 ≤ b)
      → (b < get_page_pointer s j) ⊎ (get_page_pointer s j + page_size ≤ b)
      → t.memory b ≡ s.memory b
  pub allocated : t.allocated ≡ set s.allocated j true
  pub used : t.used ≡ s.used + 1
  pub old_count : get_elem? t.ref_num n ≡ some (refs - 1)
  pub new_count :
      (old : ℕ) × (get_elem? s.ref_num j ≡ some old)
      × (get_elem? t.ref_num j ≡ some (old + 1))
      × (t.ref_num ≡ set (set s.ref_num n (refs - 1)) j (old + 1))
  pub base : t.base ≡ s.base
  pub root : t.root ≡ s.root

get_ppn-restored : (e : ℕ) → e < 2 ^ 64 → get_ppn (restored e) ≡ get_ppn e
unfolding restored
get_ppn-restored e h = elim (Bool-cases (custom e)) [
  | inl marked ↦
      rw marked
        ((get_ppn_flags (write_set e) (omega (arith, write_set_lem e))).7 ∙ (get_ppn_flags e h).4)
  | inr plain ↦ rw plain
]

-- The memory once the entry names page `j`.
middle : Machine → ℕ → ℕ → Memory
middle s entry j =
    store 8 s.memory entry (set_ppn (load 8 s.memory entry) (get_page_pointer s j / page_size))

-- The facts about `copied`, for pages that are apart from each other and from the entry.
module _ (s : Machine) (entry n j refs old : ℕ)
    (apart_new : (entry + 8 ≤ get_page_pointer s j) ⊎ (get_page_pointer s j + page_size ≤ entry))
    (apart_old : (entry + 8 ≤ get_page_pointer s n)
      ⊎ (get_page_pointer s n + page_size ≤ entry)) where
  pub copied-entry :
      load 8 (copied s entry n j refs old).memory entry
      ≡ restored (set_ppn (load 8 s.memory entry) (get_page_pointer s j / page_size))
  unfolding copied middle
  copied-entry =
      let e =
        set_ppn_fields (load 8 s.memory entry) (get_page_pointer s j / page_size)
          (load-lt_word s.memory entry) in
      load-copy_outside 8 (after_restore (middle s entry j) entry) entry (get_page_pointer s j)
        (get_page_pointer s n) page_size apart_new
      ∙ load-after_restore (middle s entry j) entry
      ∙ ap restored (load-store_self 8 s.memory entry _ e.7)

  middle_outside :
      (b : ℕ)
      → (b < entry) ⊎ (entry + 8 ≤ b)
      → after_restore (middle s entry j) entry b ≡ s.memory b
  unfolding middle
  middle_outside b h =
      after_restore_outside (middle s entry j) entry b h ∙ store_outside 8 s.memory entry _ b h

  pub copied-bytes :
      (i : ℕ)
      → i < page_size
      → (copied s entry n j refs old).memory (get_page_pointer s j + i)
        ≡ s.memory (get_page_pointer s n + i)
  unfolding copied middle
  copied-bytes i h =
      copy_byte (after_restore (middle s entry j) entry) (get_page_pointer s j)
        (get_page_pointer s n) page_size i h
      ∙ middle_outside (get_page_pointer s n + i) (ground arith)

  pub copied-others :
      (b : ℕ)
      → (b < entry) ⊎ (entry + 8 ≤ b)
      → (b < get_page_pointer s j) ⊎ (get_page_pointer s j + page_size ≤ b)
      → (copied s entry n j refs old).memory b ≡ s.memory b
  unfolding copied middle
  copied-others b h g =
      copy_byte_outside (after_restore (middle s entry j) entry) (get_page_pointer s j)
        (get_page_pointer s n) page_size b g
      ∙ middle_outside b h

  pub copied-names :
      IsValid s
      → j < max_pages
      → ppn_to_page (get_ppn (load 8 (copied s entry n j refs old).memory entry))
        ≡ get_page_pointer s j
  unfolding get_page_pointer
  copied-names v hj =
      let e = load 8 s.memory entry in
      let p = get_page_pointer s j in
      let fits = set_ppn_fields e (p / page_size) (load-lt_word s.memory entry) in
      rw (copied-entry, get_ppn-restored (set_ppn e (p / page_size)) fits.7)
        (ppn_through_entry e p (load-lt_word s.memory entry) (pointer_aligned s j v hj)
            (omega (arith, v.low))
          ∙ omega (arith, v.low))
