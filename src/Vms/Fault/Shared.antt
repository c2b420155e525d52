-- ===== src/Vms/Fault/Shared.antt =====
-- page_fault_handler on a page with several references: the observable effect of the copy.
use kernel_modules.Common.{
  ℕ, ◌+◌, ◌-◌, ◌*◌, ◌≤◌, ◌<◌, ◌≡◌, ◌≢◌, refl, sym, ◌∙◌, Bool, ◌==◌, true, false, some, arith, ◌⊎◌,
  inl, inr, Bool-cases, List, get_elem?, get_elem?-lt, set, get_elem?-set_self, get_elem?-set_ne,
  length-set, ltb,
}
use mathlib.Core.Path.{subst}
use kernel_modules.Vms.Memory.{load}
use kernel_modules.Vms.Machine.{Machine, ok, page_size, max_pages, mapped}
use kernel_modules.Vms.Pte.{write, get_ppn, valid}
use kernel_modules.Vms.PageTable.{ppn_to_page, pte_entry}
use kernel_modules.Vms.PageTable.Laws.{pte_entry_bounds}
use kernel_modules.Vms.Pages.{get_page_pointer, get_page_index, new_page}
use kernel_modules.Vms.Pages.Free.{IsFirstFree, lt-length_of_get}
use kernel_modules.Vms.Pages.Alloc.{IsValid, taken, new_page_lem, get_page_index-pointer}
use kernel_modules.Vms.Fault.{page_fault_handler, copy_shared}
use kernel_modules.Vms.Fault.CopyOnWrite.{copy_shared_runs, copied}
use kernel_modules.Vms.Fault.Copied.{
  CopiedPage, copied-entry, copied-bytes, copied-others, copied-names,
}
use kernel_modules.Vms.Fault.Handler.{to_write_fault, by_count}

-- Pages in use and a free one are different pages.
pub used_ne_free :
    (bs : List Bool) (k j : ℕ) → get_elem? bs k ≡ some true → get_elem? bs j ≡ some false → k ≢ j
used_ne_free bs k j used free e = cc (subst (λ x. get_elem? bs x ≡ some true) e used)

two_or_more : (refs : ℕ) → 2 ≤ refs → ((refs == 0) ≡ false) × ((refs == 1) ≡ false)
two_or_more refs h = (ground arith, ground arith)

-- Two pages do not meet.
pub pages_apart :
    (s : Machine) (k j : ℕ)
    → k ≢ j
    → (get_page_pointer s k + page_size ≤ get_page_pointer s j)
      ⊎ (get_page_pointer s j + page_size ≤ get_page_pointer s k)
unfolding get_page_pointer
pages_apart s k j h = elim (Bool-cases (ltb k j)) [
  | inl below ↦ inl (let lt : k < j = ground (arith, below) in omega arith)
  | inr above ↦ inr (let lt : j < k = ground (arith, above) in omega arith)
]

-- What lies in one page lies outside another.
pub page_apart :
    (s : Machine) (k j a : ℕ)
    → k ≢ j
    → get_page_pointer s k ≤ a
    → a + 8 ≤ get_page_pointer s k + page_size
    → (a + 8 ≤ get_page_pointer s j) ⊎ (get_page_pointer s j + page_size ≤ a)
page_apart s k j a h lo hi = ground (arith, pages_apart s k j h)

module _ (s : Machine) (va k n refs j old : ℕ) (v : IsValid s)
    (used_k : get_elem? s.allocated k ≡ some true) (used_n : get_elem? s.allocated n ≡ some true)
    (apart : k ≢ n)
    (names : ppn_to_page (get_ppn (load 8 s.memory (pte_entry (get_page_pointer s k) va 0)))
      ≡ get_page_pointer s n)
    (count : get_elem? s.ref_num n ≡ some refs) (first : IsFirstFree s.allocated j)
    (hj : j < max_pages) (run : new_page s ≡ ok (get_page_pointer s j, taken s j))
    (old_count : get_elem? s.ref_num j ≡ some old) where
  table_entry : ℕ
  table_entry = pte_entry (get_page_pointer s k) va 0

  new_ne_old : n ≢ j
  new_ne_old = used_ne_free s.allocated n j used_n first.free

  n-lt : n < max_pages
  n-lt = omega (arith, lt-length_of_get s.allocated n true used_n, v.pages)

  k-lt : k < max_pages
  k-lt = omega (arith, lt-length_of_get s.allocated k true used_k, v.pages)

  entry_inside : mapped s table_entry 8 ≡ true
  unfolding table_entry mapped get_page_pointer
  entry_inside =
      let b = pte_entry_bounds (s.base + k * page_size) va 0 (omega arith) in
      ground (arith, k-lt, b.0, b.1)

  entry_apart :
      (i : ℕ)
      → k ≢ i
      → (table_entry + 8 ≤ get_page_pointer s i) ⊎ (get_page_pointer s i + page_size ≤ table_entry)
  unfolding table_entry
  entry_apart i h =
      let b = pte_entry_bounds (get_page_pointer s k) va 0 (omega arith) in
      page_apart s k i (pte_entry (get_page_pointer s k) va 0) h b.0 b.1

  fresh_count : get_elem? (set s.ref_num n (refs - 1)) j ≡ some old
  fresh_count = get_elem?-set_ne s.ref_num (refs - 1) new_ne_old ∙ old_count

  copy_runs : copy_shared table_entry s ≡ ok (tt, copied s table_entry n j refs old)
  unfolding table_entry
  copy_runs =
      copy_shared_runs s (pte_entry (get_page_pointer s k) va 0) _ n j refs old v entry_inside n-lt
        hj refl names count fresh_count run

  copy_leaves : CopiedPage s table_entry n j refs (copied s table_entry n j refs old)
  unfolding copied
  copy_leaves =
      let new = entry_apart j (used_ne_free s.allocated k j used_k first.free) in
      let from = entry_apart n apart in
      record {
        names_copy = copied-names s table_entry n j refs old new from v hj;
        entry_now = copied-entry s table_entry n j refs old new from;
        bytes = copied-bytes s table_entry n j refs old new from;
        others = copied-others s table_entry n j refs old new from;
        allocated = refl;
        used = refl;
        old_count =
            get_elem?-set_ne (set s.ref_num n (refs - 1)) (old + 1) (λ e. new_ne_old (sym e))
            ∙ get_elem?-set_self s.ref_num n (refs - 1) (rw v.refs n-lt);
        new_count = (
          old,
          old_count,
          get_elem?-set_self (set s.ref_num n (refs - 1)) j (old + 1) (rw (length-set, v.refs) hj),
          refl,
        );
        base = refl;
        root = refl;
      }

  page_index : get_page_index s (ppn_to_page (get_ppn (load 8 s.memory table_entry))) ≡ n
  unfolding table_entry
  page_index = rw names (get_page_index-pointer s n v n-lt)

  handler_copies :
      valid (load 8 s.memory (pte_entry (get_page_pointer s k) va 0)) ≡ true
      → write (load 8 s.memory (pte_entry (get_page_pointer s k) va 0)) ≡ false
      → 2 ≤ refs
      → page_fault_handler va 0 (get_page_pointer s k) s
        ≡ ok (tt, copied s (pte_entry (get_page_pointer s k) va 0) n j refs old)
  unfolding table_entry
  handler_copies present protected many =
      to_write_fault s va 0 _ n refs entry_inside page_index count present protected
      ∙ by_count s va 0 _ n refs entry_inside page_index count present protected refs refl
      ∙ rw ((two_or_more refs many).0, (two_or_more refs many).1) copy_runs

-- In a valid state, for an entry of the page table in page `k` in use that names another page `n`
-- in use, is valid and not writable: if page `n` has at least two references and a page is free,
-- the handler takes the first free page `j` and leaves page `n` copied into it, with the entry on
-- the copy; every other byte, every other mark and count, the base and the root stay (see CopiedPage).
pub handler_shared :
    (s : Machine) (va k n refs : ℕ)
    → let entry = pte_entry (get_page_pointer s k) va 0 in
      let e = load 8 s.memory entry in
      IsValid s
      → get_elem? s.allocated k ≡ some true
      → get_elem? s.allocated n ≡ some true
      → k ≢ n
      → valid e ≡ true
      → write e ≡ false
      → ppn_to_page (get_ppn e) ≡ get_page_pointer s n
      → get_elem? s.ref_num n ≡ some refs
      → 2 ≤ refs
      → s.used < max_pages
      → (j : ℕ) × IsFirstFree s.allocated j
        × (t : Machine) × (page_fault_handler va 0 (get_page_pointer s k) s ≡ ok (tt, t))
        × CopiedPage s entry n j refs t
handler_shared s va k n refs v used_k used_n apart present protected names count many room =
    elim (new_page_lem s v) [
      | inr (run, full) ↦ absurd (omega arith)
      | inl (j, run, first, hj, less, w) ↦
          let (old, old_count) = get_elem?-lt s.ref_num j (rw v.refs hj) in
          (
            j,
            first,
            copied s (pte_entry (get_page_pointer s k) va 0) n j refs old,
            handler_copies s va k n refs j old v used_k used_n apart names count first hj run
                old_count present protected many,
            (unfold table_entry in
                copy_leaves s va k n refs j old v used_k used_n apart names count first hj run
                  old_count),
          )
    ]
