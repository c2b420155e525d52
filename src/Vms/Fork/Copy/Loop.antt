-- ===== src/Vms/Fork/Copy/Loop.antt =====
-- The innermost loop of vms_fork_copy as a whole.
use kernel_modules.Common.{
  ℕ, zero, suc, ◌+◌, ◌*◌, ◌≤◌, ◌<◌, ◌≡◌, ◌≢◌, refl, Bool, true, some, arith, List, get_elem?,
}
use kernel_modules.Vms.Memory.{Memory}
use kernel_modules.Vms.Machine.{Machine, ok, ◌>>=◌, ◌>>◌, max_pages, num_pte_entries}
use kernel_modules.Vms.Pte.{valid}
use kernel_modules.Vms.PageTable.{pte_entry_from_index}
use kernel_modules.Vms.Pages.{get_page_pointer}
use kernel_modules.Vms.Pages.Alloc.{IsValid}
use kernel_modules.Vms.Fault.Steps.{read_pte_runs}
use kernel_modules.Vms.Fork.{for_valid, copy_data}
use kernel_modules.Vms.Fork.Copy.{grown}
use kernel_modules.Vms.Fork.Copy.Round.{round_copied, word_mapped}
use kernel_modules.Vms.Fork.Copy.Table.{word_at, valid_count, NamesUsed, TableCopied}
use kernel_modules.Vms.Fork.Copy.Join.{
  valid_count_same, count_at_valid, count_first, word_k, still_named, joined,
}

copy_loop :
    (s : Machine) (k c n i : ℕ)
    → i + n ≤ 512
    → IsValid s
    → get_elem? s.allocated k ≡ some true
    → get_elem? s.allocated c ≡ some true
    → k ≢ c
    → ((x : ℕ) → i ≤ x → x < i + n → NamesUsed s c (word_at s s.memory k x))
    → s.used + valid_count s k n i ≤ max_pages
    → (m : Memory) × (bs : List Bool) × (u : ℕ) × (for_valid n i copy_data
          (get_page_pointer s k)
          (get_page_pointer s c)
          s
        ≡ ok (tt, grown s m bs u))
      × TableCopied s k c n i m bs u
unfolding for_valid pte_entry_from_index get_page_pointer
copy_loop s k c zero i inside v used_k used_c kc named room = (
  s.memory,
  s.allocated,
  s.used,
  refl,
  record {
    still = v;
    entries = λ x lo hi. absurd (omega arith);
    distinct = λ x y lo lt hi onx ony. absurd (omega arith);
    kept = λ q b h hb o. refl;
    grows = λ q h. h;
    used = (unfold valid_count in omega arith);
  },
)
copy_loop s k c (suc n) i inside v used_k used_c kc named room =
    let (m1, bs1, u1, runs, p) =
      round_copied s k c v used_k used_c kc i (omega arith) (named i (omega arith) (omega arith))
        (λ on. omega (arith, room, count_at_valid s k n i on)) in
    let (m2, bs2, u2, more, w) =
      copy_loop (grown s m1 bs1 u1) k c n (i + 1) (omega arith) p.still (p.grows k used_k)
        (p.grows c used_c) kc
        (λ x lo hi.
          still_named s k c used_k used_c kc n i inside m1 bs1 u1 p x (omega arith)
            (named x (omega arith) (omega arith)))
        (omega (
          arith,
          room,
          p.used,
          count_first s k n i,
          valid_count_same s m1 bs1 u1 k n (i + 1)
              (λ y lo hi. word_k s k c used_k used_c kc n i inside m1 bs1 u1 p y (omega arith)),
        )) in
    (
      m2,
      bs2,
      u2,
      rw (
        read_pte_runs s (get_page_pointer s k + 8 * i) (word_mapped s v k i used_k (omega arith))
            valid,
        ◌>>=◌,
        ◌>>◌,
        runs,
        more,
      ),
      joined s k c used_k used_c kc n i inside m1 bs1 u1 p m2 bs2 u2 named w,
    )

-- The innermost loop of vms_fork_copy over all 512 entries of two different pages in use, in a
-- valid state where each valid entry of the first names a page in use other than the second table,
-- and there are as many free pages as the first has valid entries: it succeeds and leaves a valid
-- state; at each index where the first has a valid entry, the entry of the second names a page that
-- was not in use and is now, with the four flags of the first and the bytes of the page that the
-- first names, different pages at different indices; every other entry of the second is as before,
-- no page in use but the second table changes, no page is given back, and the count of used pages
-- goes up by the number of valid entries.
pub table_copied :
    (s : Machine) (k c : ℕ)
    → IsValid s
    → get_elem? s.allocated k ≡ some true
    → get_elem? s.allocated c ≡ some true
    → k ≢ c
    → ((x : ℕ) → x < num_pte_entries → NamesUsed s c (word_at s s.memory k x))
    → s.used + valid_count s k num_pte_entries 0 ≤ max_pages
    → (m : Memory) × (bs : List Bool) × (u : ℕ) × (for_valid num_pte_entries 0 copy_data
          (get_page_pointer s k)
          (get_page_pointer s c)
          s
        ≡ ok (tt, grown s m bs u))
      × TableCopied s k c num_pte_entries 0 m bs u
table_copied s k c v used_k used_c kc named room =
    copy_loop s k c num_pte_entries 0 (omega arith) v used_k used_c kc
      (λ x lo hi. named x (omega arith)) room
