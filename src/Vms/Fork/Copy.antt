-- ===== src/Vms/Fork/Copy.antt =====
-- The innermost body of vms_fork_copy: a new page with the bytes of the old one.
pub mod Table
pub mod Round
pub mod Join
pub mod Loop
use kernel_modules.Common.{
  ℕ, ◌+◌, ◌*◌, ◌/◌, ◌^◌, ◌≤◌, ◌<◌, ◌≡◌, ◌≢◌, refl, sym, ap, ◌∙◌, Bool, true, false, some, arith,
  ◌⊎◌, inl, inr, List, get_elem?, set, leb, ltb, ◌&&◌,
}
use kernel_modules.Vms.Memory.{Memory, load, copy, load-copy_outside}
use kernel_modules.Vms.Machine.{
  Machine, ok, stop, ◌>>=◌, ◌>>◌, max_pages, page_size, mapped, copy_page,
}
use kernel_modules.Vms.Machine.Laws.{copy_page_lem}
use kernel_modules.Vms.Pte.{valid, read, write, custom, get_ppn}
use kernel_modules.Vms.PageTable.{ppn_to_page}
use kernel_modules.Vms.Pages.{get_page_pointer, new_page}
use kernel_modules.Vms.Pages.Free.{IsFirstFree, lt-length_of_get}
use kernel_modules.Vms.Pages.Alloc.{IsValid, taken, new_page_lem, pointer_aligned, pointer_mapped}
use kernel_modules.Vms.Fault.Shared.{pages_apart, used_ne_free}
use kernel_modules.Vms.Fork.{copy_data, entry_copy, page_of}
use kernel_modules.Vms.Fork.EntryCopy.{entry_copy_lem}
use kernel_modules.Vms.Fork.Shared.{pointer_low, page_of_runs, same_word}

-- The machine with another memory and other pages in use.
abbrev pub grown : Machine → Memory → List Bool → ℕ → Machine
grown s m bs u = record s { memory = m; allocated = bs; used = u }

-- An entry that names `page` with the four flags of the word `e`.
pub record SameFlags (e page w : ℕ) : Type 0 where
  pub names : ppn_to_page (get_ppn w) ≡ page
  pub valid_kept : valid w ≡ valid e
  pub read_kept : read w ≡ read e
  pub write_kept : write w ≡ write e
  pub custom_kept : custom w ≡ custom e

-- What the copy of page `n` into the new page `j` leaves, for the destination's entry at `dst`.
pub record NewCopy (s : Machine) (src dst n j : ℕ) (m : Memory) : Type 0 where
  pub still : IsValid (grown s m (set s.allocated j true) (s.used + 1))
  pub free : get_elem? s.allocated j ≡ some false
  pub inside : j < max_pages
  pub entry : SameFlags (load 8 s.memory src) (get_page_pointer s j) (load 8 m dst)
  pub bytes :
      (i : ℕ) → i < page_size → m (get_page_pointer s j + i) ≡ s.memory (get_page_pointer s n + i)
  pub outside :
      (b : ℕ)
      → (b < dst) ⊎ (dst + 8 ≤ b)
      → (b < get_page_pointer s j) ⊎ (get_page_pointer s j + page_size ≤ b)
      → m b ≡ s.memory b

with_memory-IsValid : (s : Machine) (m : Memory) → IsValid s → IsValid (record s { memory = m })
with_memory-IsValid s m v = record {
  pages = v.pages;
  refs = v.refs;
  counted = v.counted;
  aligned = v.aligned;
  low = v.low;
}

byte_copied : (m : Memory) (dst src n i : ℕ) → i < n → copy m dst src n (dst + i) ≡ m (src + i)
unfolding copy
byte_copied m dst src n i h = ground arith

byte_not_copied :
    (m : Memory) (dst src n b : ℕ) → (b < dst) ⊎ (dst + n ≤ b) → copy m dst src n b ≡ m b
unfolding copy
byte_not_copied m dst src n b h = ground arith

module _ (s : Machine) (src dst c n : ℕ) (v : IsValid s) (here_src : mapped s src 8 ≡ true)
    (here_dst : mapped s dst 8 ≡ true) (apart : (src + 8 ≤ dst) ⊎ (dst + 8 ≤ src))
    (low : get_page_pointer s c ≤ dst) (high : dst + 8 ≤ get_page_pointer s c + page_size)
    (used_c : get_elem? s.allocated c ≡ some true) (used_n : get_elem? s.allocated n ≡ some true)
    (cn : c ≢ n) (names : ppn_to_page (get_ppn (load 8 s.memory src)) ≡ get_page_pointer s n) where
  module _ (j : ℕ) (run : new_page s ≡ ok (get_page_pointer s j, taken s j))
      (first : IsFirstFree s.allocated j) (hj : j < max_pages) (w : IsValid (taken s j)) where
    hn : n < max_pages
    hn = omega (arith, lt-length_of_get s.allocated n true used_n, v.pages)

    copies :
        (m : Memory) × (copy_data src dst s
          ≡ ok (tt, grown s m (set s.allocated j true) (s.used + 1)))
        × NewCopy s src dst n j m
    unfolding copy_data mapped get_page_pointer
    copies =
        let page = get_page_pointer s j in
        let old = get_page_pointer s n in
        let (m1, copied, named, v1, r1, w1, c1, top, kept) =
          entry_copy_lem (taken s j) src dst page here_src here_dst apart (pointer_aligned s j v hj)
            (pointer_low s j v hj) in
        let m2 = copy m1 page old page_size in
        let cj = pages_apart s c j (used_ne_free s.allocated c j used_c first.free) in
        let cn' = pages_apart s c n cn in
        (
          m2,
          rw (
            run,
            ◌>>=◌,
            page_of_runs (taken s j) src old here_src names,
            copied,
            ◌>>◌,
            copy_page_lem (record (taken s j) { memory = m1 }) page old (pointer_mapped s j v hj)
                (pointer_mapped s n v hn),
          ),
          record {
            still = with_memory-IsValid (taken s j) m2 w;
            free = first.free;
            inside = hj;
            entry = rw (load-copy_outside 8 m1 dst page old page_size (ground arith)) (record {
              names = named;
              valid_kept = v1;
              read_kept = r1;
              write_kept = w1;
              custom_kept = c1;
            });
            bytes = λ i hi. byte_copied m1 page old page_size i hi ∙ kept (old + i) (ground arith);
            outside = λ b h k. byte_not_copied m1 page old page_size b k ∙ kept b h;
          },
        )

  pub copy_data_lem :
      s.used < max_pages
      → (j : ℕ) × (m : Memory) × (copy_data src dst s
          ≡ ok (tt, grown s m (set s.allocated j true) (s.used + 1)))
        × NewCopy s src dst n j m
  copy_data_lem room = elim (new_page_lem s v) [
    | inr (run, full) ↦ absurd (omega arith)
    | inl (j, run, first, hj, less, w) ↦
        let (m, runs, p) = copies j run first hj w in (j, m, runs, p)
  ]
