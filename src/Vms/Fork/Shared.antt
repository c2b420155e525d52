-- ===== src/Vms/Fork/Shared.antt =====
-- The innermost body of vms_fork_copy_on_write: a page that the two tables share afterwards.
use kernel_modules.Common.{
  ℕ, ◌+◌, ◌^◌, ◌≤◌, ◌<◌, ◌≡◌, refl, sym, ap, ◌∙◌, true, false, some, ◌||◌, arith, ◌⊎◌, get_elem?,
  set, length-set,
}
use kernel_modules.Vms.Memory.{Memory, load, load_congr}
use kernel_modules.Vms.Machine.{Machine, ok, ◌>>=◌, ◌>>◌, ret, max_pages, mapped}
use kernel_modules.Vms.Pte.{valid, read, write, custom, get_ppn}
use kernel_modules.Vms.PageTable.{ppn_to_page}
use kernel_modules.Vms.Pages.{get_page_pointer, get_page_index}
use kernel_modules.Vms.Pages.Alloc.{IsValid, get_page_index-pointer, pointer_aligned}
use kernel_modules.Vms.Fault.Steps.{load-lt_word, read_pte_runs, ref_of_runs, set_ref_of_runs}
use kernel_modules.Vms.Fork.{page_of, share_data}
use kernel_modules.Vms.Fork.EntryCopy.{entry_copy_lem}
use kernel_modules.Vms.Fork.Protect.{protected, protected_fields, protect_runs}

-- An entry that names `page` with the valid and read flags of the word `e`, is not writable, and is
-- marked if `e` is writable or marked.
pub record SharedEntry (e page w : ℕ) : Type 0 where
  pub names : ppn_to_page (get_ppn w) ≡ page
  pub valid_kept : valid w ≡ valid e
  pub read_kept : read w ≡ read e
  pub no_write : write w ≡ false
  pub marked : custom w ≡ write e || custom e

-- What sharing page `n`, named by the entry at `src`, with the entry at `dst` leaves in the memory.
pub record SharedPage (s : Machine) (src dst n : ℕ) (m : Memory) : Type 0 where
  pub src_entry : SharedEntry (load 8 s.memory src) (get_page_pointer s n) (load 8 m src)
  pub dst_entry : SharedEntry (load 8 s.memory src) (get_page_pointer s n) (load 8 m dst)
  pub others : (b : ℕ) → (b < dst) ⊎ (dst + 8 ≤ b) → (b < src) ⊎ (src + 8 ≤ b) → m b ≡ s.memory b

-- The state after page `n`, counted `refs` times, was shared.
abbrev pub shared_state : Machine → ℕ → ℕ → Memory → Machine
shared_state s n refs m = record s { memory = m; ref_num = set s.ref_num n (refs + 2) }

-- Sharing a page keeps the state valid.
pub shared-IsValid :
    (s : Machine) (n refs : ℕ) (m : Memory) → IsValid s → IsValid (shared_state s n refs m)
shared-IsValid s n refs m v = record {
  pages = v.pages;
  refs = rw length-set v.refs;
  counted = v.counted;
  aligned = v.aligned;
  low = v.low;
}

-- A word outside of the bytes that changed.
pub same_word :
    (m w : Memory) (src dst : ℕ)
    → (src + 8 ≤ dst) ⊎ (dst + 8 ≤ src)
    → ((b : ℕ) → (b < dst) ⊎ (dst + 8 ≤ b) → w b ≡ m b)
    → load 8 w src ≡ load 8 m src
same_word m w src dst apart kept = load_congr 8 w m src src (λ i p. kept (src + i) (ground arith))

-- The entry that `protect` leaves of an entry with the fields of `e`.
shared_entry :
    (e page w : ℕ)
    → w < 2 ^ 64
    → ppn_to_page (get_ppn w) ≡ page
    → valid w ≡ valid e
    → read w ≡ read e
    → write w ≡ write e
    → custom w ≡ custom e
    → SharedEntry e page (protected w)
shared_entry e page w h names v r wr c =
    let f = protected_fields w h in
    record {
      names = ap ppn_to_page f.0 ∙ names;
      valid_kept = f.1 ∙ v;
      read_kept = f.2 ∙ r;
      no_write = f.3;
      marked = f.4 ∙ rw (wr, c) refl;
    }

pub pointer_low : (s : Machine) (n : ℕ) → IsValid s → n < max_pages → get_page_pointer s n < 2 ^ 56
unfolding get_page_pointer
pointer_low s n v hn = omega (arith, v.low)

pub page_of_runs :
    (s : Machine) (a page : ℕ)
    → mapped s a 8 ≡ true
    → ppn_to_page (get_ppn (load 8 s.memory a)) ≡ page
    → page_of a s ≡ ok (page, s)
unfolding page_of
page_of_runs s a page here names = rw (read_pte_runs s a here get_ppn, ◌>>=◌, ret, names)

pub share_data_lem :
    (s : Machine) (src dst n refs : ℕ)
    → IsValid s
    → mapped s src 8 ≡ true
    → mapped s dst 8 ≡ true
    → (src + 8 ≤ dst) ⊎ (dst + 8 ≤ src)
    → n < max_pages
    → ppn_to_page (get_ppn (load 8 s.memory src)) ≡ get_page_pointer s n
    → get_elem? s.ref_num n ≡ some refs
    → (m : Memory) × (share_data src dst s ≡ ok (tt, shared_state s n refs m))
      × SharedPage s src dst n m
unfolding share_data mapped get_page_index
share_data_lem s src dst n refs v here_src here_dst apart hn names count =
    let page = get_page_pointer s n in
    let e = load 8 s.memory src in
    let (m1, copied, named, v1, r1, w1, c1, high, kept) =
      entry_copy_lem s src dst page here_src here_dst apart (pointer_aligned s n v hn)
        (pointer_low s n v hn) in
    let same = same_word s.memory m1 src dst apart kept in
    let (m2, weak, word_dst, word_src, kept2) =
      protect_runs (record s { memory = m1 }) src dst here_src here_dst apart
        (w1 ∙ ap write (sym same)) in
    (
      m2,
      rw (
        page_of_runs s src page here_src names,
        ◌>>=◌,
        copied,
        ◌>>◌,
        weak,
        ref_of_runs (record s { memory = m2 }) page n refs (get_page_index-pointer s n v hn) count,
        set_ref_of_runs (record s { memory = m2 }) page n refs (get_page_index-pointer s n v hn)
            count (refs + 2),
      ),
      record {
        src_entry =
            rw (word_src, same)
              (shared_entry e page e (load-lt_word s.memory src) names refl refl refl refl);
        dst_entry =
            rw word_dst
              (shared_entry e page (load 8 m1 dst) (load-lt_word m1 dst) named v1 r1 w1 c1);
        others = λ b h k. kept2 b h k ∙ kept b h;
      },
    )
