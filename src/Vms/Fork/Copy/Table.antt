-- ===== src/Vms/Fork/Copy/Table.antt =====
-- The innermost loop of vms_fork_copy: what it makes of the entries of two lowest tables.
use kernel_modules.Common.{
  ℕ, zero, suc, ◌+◌, ◌*◌, ◌≤◌, ◌<◌, ◌≡◌, ◌≢◌, Bool, true, false, some, if◌then◌else◌, ◌⊎◌, List,
  get_elem?,
}
use kernel_modules.Vms.Memory.{Memory, load}
use kernel_modules.Vms.Machine.{Machine, page_size}
use kernel_modules.Vms.Pte.{valid, get_ppn}
use kernel_modules.Vms.PageTable.{ppn_to_page}
use kernel_modules.Vms.Pages.{get_page_pointer}
use kernel_modules.Vms.Pages.Alloc.{IsValid}
use kernel_modules.Vms.Fork.Copy.{grown, SameFlags}

-- The entry at index `x` of the table in page `k`.
abbrev pub word_at : Machine → Memory → ℕ → ℕ → ℕ
word_at s m k x = load 8 m (get_page_pointer s k + 8 * x)

-- The valid entries among the `n` from index `i` on of the table in page `k`.
unfoldable pub valid_count : Machine → ℕ → ℕ → ℕ → ℕ
valid_count s k zero i = 0
valid_count s k (suc n) i =
    let rest = valid_count s k n (i + 1) in (if valid (word_at s s.memory k i) then 1 else 0) + rest

-- The word `e` of an entry is not valid, or names a page in use other than `c`.
abbrev pub NamesUsed : Machine → ℕ → ℕ → Type 0
NamesUsed s c e =
    valid e ≡ true
    → (n : ℕ) × (get_elem? s.allocated n ≡ some true)
      × (c ≢ n)
      × (ppn_to_page (get_ppn e) ≡ get_page_pointer s n)

-- For the entry words `e` and `old`, the second entry became `w`: it names a page that was not in
-- use, with the bytes of the page that `e` names, if `e` is valid.
abbrev pub CopiedEntry : Machine → Memory → List Bool → ℕ → ℕ → ℕ → Type 0
CopiedEntry s m bs e old w =
    ((valid e ≡ true)
      × (j : ℕ) × (get_elem? s.allocated j ≢ some true)
      × (get_elem? bs j ≡ some true)
      × SameFlags e (get_page_pointer s j) w
      × ((i : ℕ)
          → i < page_size
          → m (get_page_pointer s j + i) ≡ s.memory (ppn_to_page (get_ppn e) + i)))
    ⊎ ((valid e ≡ false) × (w ≡ old))

-- The entries from index `i` to `i + n` of the tables in the pages `k` and `c`.
pub record TableCopied (s : Machine) (k c n i : ℕ) (m : Memory) (bs : List Bool) (u : ℕ)
    : Type 0 where
  pub still : IsValid (grown s m bs u)
  pub entries :
      (x : ℕ)
      → i ≤ x
      → x < i + n
      → CopiedEntry s m bs (word_at s s.memory k x) (word_at s s.memory c x) (word_at s m c x)
  pub distinct :
      (x y : ℕ)
      → i ≤ x
      → x < y
      → y < i + n
      → valid (word_at s s.memory k x) ≡ true
      → valid (word_at s s.memory k y) ≡ true
      → ppn_to_page (get_ppn (word_at s m c x)) ≢ ppn_to_page (get_ppn (word_at s m c y))
  pub kept :
      (q b : ℕ)
      → get_elem? s.allocated q ≡ some true
      → b < page_size
      → (c ≢ q) ⊎ ((b < 8 * i) ⊎ (8 * (i + n) ≤ b))
      → m (get_page_pointer s q + b) ≡ s.memory (get_page_pointer s q + b)
  pub grows : (q : ℕ) → get_elem? s.allocated q ≡ some true → get_elem? bs q ≡ some true
  pub used : u ≡ s.used + valid_count s k n i
