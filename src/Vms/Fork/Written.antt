-- ===== src/Vms/Fork/Written.antt =====
-- vms_fork_copy_on_write and page_fault_handler together: a page that a fork has shared, written
-- through the first table.
use kernel_modules.Common.{
  ℕ, ◌+◌, ◌*◌, ◌/◌, ◌≤◌, ◌<◌, ◌≡◌, ◌≢◌, sym, ap, ◌∙◌, true, some, ◌||◌, arith, ◌⊎◌, inl, inr,
  get_elem?, get_elem?-set_self,
}
use mathlib.Core.Path.{subst}
use kernel_modules.Vms.Memory.{Memory, load, load_congr}
use kernel_modules.Vms.Machine.{Machine, ok, max_pages, page_size, mapped}
use kernel_modules.Vms.Pte.{valid, write, custom, get_ppn, set_ppn}
use kernel_modules.Vms.PageTable.{ppn_to_page, pte_entry}
use kernel_modules.Vms.PageTable.Laws.{pte_entry_bounds}
use kernel_modules.Vms.Pages.{get_page_pointer}
use kernel_modules.Vms.Pages.Free.{IsFirstFree, lt-length_of_get}
use kernel_modules.Vms.Pages.Alloc.{IsValid}
use kernel_modules.Vms.Fault.{page_fault_handler}
use kernel_modules.Vms.Fault.Steps.{load-lt_word, restored_marked}
use kernel_modules.Vms.Pte.Ppn.{set_ppn_fields}
use kernel_modules.Vms.Fault.Copied.{CopiedPage}
use kernel_modules.Vms.Fault.Shared.{handler_shared, pages_apart, page_apart, used_ne_free}
use kernel_modules.Vms.Fork.{share_data}
use kernel_modules.Vms.Fork.Shared.{
  SharedEntry, SharedPage, shared_state, shared-IsValid, share_data_lem,
}

module _ (s : Machine) (k : ℕ) (v : IsValid s) (used_k : get_elem? s.allocated k ≡ some true) where
  used-lt : k < max_pages
  used-lt = omega (arith, lt-length_of_get s.allocated k true used_k, v.pages)

  entry_inside : (va : ℕ) → mapped s (pte_entry (get_page_pointer s k) va 0) 8 ≡ true
  unfolding mapped get_page_pointer
  entry_inside va =
      let b = pte_entry_bounds (s.base + k * page_size) va 0 (omega arith) in
      ground (arith, used-lt, b.0, b.1)

  -- An entry of the table in page `k` lies outside another page.
  entry_outside :
      (va j : ℕ)
      → k ≢ j
      → let a = pte_entry (get_page_pointer s k) va 0 in
        (a + 8 ≤ get_page_pointer s j) ⊎ (get_page_pointer s j + page_size ≤ a)
  entry_outside va j h =
      let b = pte_entry_bounds (get_page_pointer s k) va 0 (omega arith) in
      page_apart s k j _ h b.0 b.1

  -- Bytes of page `j` lie outside of such an entry.
  byte_outside :
      (va j i : ℕ)
      → k ≢ j
      → i < page_size
      → let a = pte_entry (get_page_pointer s k) va 0 in
        (get_page_pointer s j + i < a) ⊎ (a + 8 ≤ get_page_pointer s j + i)
  byte_outside va j i h hi = let o = entry_outside va j h in ground (arith, o)

-- The entries at the same index of two tables do not meet.
entries_apart :
    (s : Machine) (k c va : ℕ)
    → k ≢ c
    → let src = pte_entry (get_page_pointer s k) va 0 in
      let dst = pte_entry (get_page_pointer s c) va 0 in (src + 8 ≤ dst) ⊎ (dst + 8 ≤ src)
entries_apart s k c va h =
    let b = pte_entry_bounds (get_page_pointer s k) va 0 (omega arith) in
    let d = pte_entry_bounds (get_page_pointer s c) va 0 (omega arith) in
    let o = page_apart s k c _ h b.0 b.1 in ground (arith, o, d)

-- What a write fault at the entry of table `k` leaves, after the entry's page `n` was shared with
-- table `c`, when the new page is `j`.
pub record Separate (s : Machine) (va k c n j : ℕ) (u : Machine) : Type 0 where
  pub mine :
      ppn_to_page (get_ppn (load 8 u.memory (pte_entry (get_page_pointer s k) va 0)))
      ≡ get_page_pointer s j
  pub mine_write :
      write (load 8 s.memory (pte_entry (get_page_pointer s k) va 0)) ≡ true
      → write (load 8 u.memory (pte_entry (get_page_pointer s k) va 0)) ≡ true
  pub mine_bytes :
      (i : ℕ)
      → i < page_size
      → u.memory (get_page_pointer s j + i) ≡ s.memory (get_page_pointer s n + i)
  pub theirs :
      SharedEntry
        (load 8 s.memory (pte_entry (get_page_pointer s k) va 0))
        (get_page_pointer s n)
        (load 8 u.memory (pte_entry (get_page_pointer s c) va 0))
  pub their_bytes :
      (i : ℕ)
      → i < page_size
      → u.memory (get_page_pointer s n + i) ≡ s.memory (get_page_pointer s n + i)

-- A byte of one page lies outside another.
bytes_apart :
    (s : Machine) (n j i : ℕ)
    → n ≢ j
    → i < page_size
    → (get_page_pointer s n + i < get_page_pointer s j)
      ⊎ (get_page_pointer s j + page_size ≤ get_page_pointer s n + i)
bytes_apart s n j i h hi = ground (arith, pages_apart s n j h)

-- A byte of a word lies outside an area that the word does not meet.
word_byte :
    (area len a i : ℕ)
    → (a + 8 ≤ area) ⊎ (area + len ≤ a)
    → i < 8
    → (a + i < area) ⊎ (area + len ≤ a + i)
word_byte area len a i (inl below) hi = inl (omega arith)
word_byte area len a i (inr above) hi = inr (omega arith)

-- The bytes of page `n` through the two steps, and the entry of table `c`.
separate :
    (s : Machine) (va k c n refs j : ℕ) (m : Memory) (u : Machine)
    → IsValid s
    → get_elem? s.allocated k ≡ some true
    → get_elem? s.allocated c ≡ some true
    → k ≢ c
    → k ≢ n
    → c ≢ n
    → c ≢ j
    → n ≢ j
    → SharedPage s
        (pte_entry (get_page_pointer s k) va 0)
        (pte_entry (get_page_pointer s c) va 0)
        n
        m
    → CopiedPage (shared_state s n refs m) (pte_entry (get_page_pointer s k) va 0) n j (refs + 2) u
    → Separate s va k c n j u
unfolding get_page_pointer
separate s va k c n refs j m u v used_k used_c kc kn cn cj nj p w = record {
  mine = w.names_copy;
  mine_write = λ on.
      let f = set_ppn_fields (load 8 m src) ppn (load-lt_word m src) in
      rw w.entry_now
        (restored_marked (set_ppn (load 8 m src) ppn) f.7
          (f.4 ∙ p.src_entry.marked ∙ ap (λ b. b || custom (load 8 s.memory src)) on)).0;
  mine_bytes = λ i hi. w.bytes i hi ∙ shared_byte i hi;
  theirs =
      subst (SharedEntry (load 8 s.memory src) (get_page_pointer s n)) (sym entry_kept) p.dst_entry;
  their_bytes = λ i hi.
      w.others (get_page_pointer s n + i) (byte_outside s k v used_k va n i kn hi)
        (bytes_apart s n j i nj hi)
      ∙ shared_byte i hi;
}
  where
    src : ℕ
    src = pte_entry (get_page_pointer s k) va 0

    dst : ℕ
    dst = pte_entry (get_page_pointer s c) va 0

    ppn : ℕ
    ppn = get_page_pointer s j / page_size

    shared_byte :
        (i : ℕ) → i < page_size → m (get_page_pointer s n + i) ≡ s.memory (get_page_pointer s n + i)
    shared_byte i hi =
        p.others (get_page_pointer s n + i) (byte_outside s c v used_c va n i cn hi)
          (byte_outside s k v used_k va n i kn hi)

    entry_kept : load 8 u.memory dst ≡ load 8 m dst
    entry_kept = load_congr 8 u.memory m dst dst (λ i hi.
        let o = entries_apart s c k va (λ e. kc (sym e)) in
        let q = entry_outside s c v used_c va j cj in
        w.others (dst + i) (word_byte src 8 dst i o hi)
          (word_byte (get_page_pointer s j) page_size dst i q hi))

-- Copy on write over the fork and the fault: in a valid state with a free page, for the entries of
-- one address in two different tables in use, the first of them valid and naming a page in use that
-- is neither table, the innermost body of vms_fork_copy_on_write succeeds, page_fault_handler on
-- the first table then succeeds with the first free page, and afterwards the first entry names that
-- page, which has the bytes of the old one, and is writable if it was, while the second entry names
-- the old page, read-only and marked if the first was writable or marked, with all its bytes
-- unchanged.
pub fork_then_write :
    (s : Machine) (va k c n refs : ℕ)
    → let src = pte_entry (get_page_pointer s k) va 0 in
      let dst = pte_entry (get_page_pointer s c) va 0 in
      IsValid s
      → get_elem? s.allocated k ≡ some true
      → get_elem? s.allocated c ≡ some true
      → get_elem? s.allocated n ≡ some true
      → k ≢ c
      → k ≢ n
      → c ≢ n
      → valid (load 8 s.memory src) ≡ true
      → ppn_to_page (get_ppn (load 8 s.memory src)) ≡ get_page_pointer s n
      → get_elem? s.ref_num n ≡ some refs
      → s.used < max_pages
      → (t : Machine) × (share_data src dst s ≡ ok (tt, t))
        × (u : Machine) × (page_fault_handler va 0 (get_page_pointer s k) t ≡ ok (tt, u))
        × (j : ℕ) × IsFirstFree s.allocated j
        × Separate s va k c n j u
unfolding get_page_pointer
fork_then_write s va k c n refs v used_k used_c used_n kc kn cn present names count room =
    let src = pte_entry (get_page_pointer s k) va 0 in
    let dst = pte_entry (get_page_pointer s c) va 0 in
    let apart = entries_apart s k c va kc in
    let hn = used-lt s n v used_n in
    let (m, shares, p) =
      share_data_lem s src dst n refs v (entry_inside s k v used_k va)
        (entry_inside s c v used_c va) apart hn names count in
    let t = shared_state s n refs m in
    let (j, first, u, handles, w) =
      handler_shared t va k n (refs + 2) (shared-IsValid s n refs m v) used_k used_n kn
        (p.src_entry.valid_kept ∙ present) p.src_entry.no_write p.src_entry.names
        (get_elem?-set_self s.ref_num n (refs + 2) (rw v.refs hn)) (omega arith) room in
    let cj = used_ne_free s.allocated c j used_c first.free in
    let nj = used_ne_free s.allocated n j used_n first.free in
    (
      t,
      shares,
      u,
      handles,
      j,
      first,
      separate s va k c n refs j m u v used_k used_c kc kn cn cj nj p w,
    )
