-- ===== src/Vms/Pages/Alloc.antt =====
-- The allocator's invariant, and what vms_new_page and vms_free_page do to the state.
use kernel_modules.Common.{
  suc, Bool, get_elem?-set_self, ◌∙◌, sym, List, [], ◌∷◌, zero, ℕ, ◌+◌, ◌-◌, ◌*◌, ◌%◌, ◌^◌, ◌≤◌,
  ◌<◌, ◌≡◌, refl, sym, ◌⊎◌, inl, inr, true, false, some, length, get_elem?, set, length-set, arith,
}
use mathlib.Core.Path.{subst}
use kernel_modules.Vms.Memory.{clear}
use kernel_modules.Vms.Machine.{
  ok-injective, Machine, exit, assertion, ok, stop, max_pages, page_size, mapped, clear_page,
}
use kernel_modules.Vms.Pages.{get_page_pointer, get_page_index, new_page, free_page}
use kernel_modules.Vms.Pages.Free.{
  count-set-false, set-set_back, count, IsFirstFree, find_free_cases, count-set-true,
  lt-length_of_get,
}

-- The arrays have their C lengths, the counter counts the pages in use, and the mapping is aligned
-- and lies below 2 ^ 56, as every user address does.
pub record IsValid (s : Machine) : Type 0 where
  pub pages : length s.allocated ≡ max_pages
  pub refs : length s.ref_num ≡ max_pages
  pub counted : count s.allocated ≡ s.used
  pub aligned : s.base % page_size ≡ 0
  pub low : s.base + max_pages * page_size ≤ 2 ^ 56

-- The state after index `i` was taken.
abbrev pub taken : Machine → ℕ → Machine
taken s i = record s { allocated = set s.allocated i true; used = s.used + 1 }

pub get_page_index-pointer :
    (s : Machine) (i : ℕ) → IsValid s → i < max_pages → get_page_index s (get_page_pointer s i) ≡ i
unfolding get_page_index get_page_pointer
get_page_index-pointer s i v h = omega (arith, v.low)

pub taken-IsValid :
    (s : Machine) (i : ℕ) → IsValid s → get_elem? s.allocated i ≡ some false → IsValid (taken s i)
taken-IsValid s i v free = record {
  pages = rw length-set v.pages;
  refs = v.refs;
  counted = omega (arith, count-set-true s.allocated i free, v.counted);
  aligned = v.aligned;
  low = v.low;
}

-- In a valid state vms_new_page takes the first free page, as long as fewer than MAX_PAGES are in
-- use: it returns that page's address, marks it, counts it and changes nothing else, and the new
-- state is valid. With MAX_PAGES in use it exits with ENOMEM (12).
pub new_page_lem :
    (s : Machine)
    → IsValid s
    → ((i : ℕ) × (new_page s ≡ ok (get_page_pointer s i, taken s i))
        × IsFirstFree s.allocated i
        × (i < max_pages)
        × (s.used < max_pages)
        × IsValid (taken s i))
      ⊎ ((new_page s ≡ stop (exit 12)) × (s.used ≡ max_pages))
unfolding new_page
new_page_lem s v = elim (find_free_cases s.allocated 0) [
  | inl (i, found, first, room) ↦ inl (
    i,
    ground (arith, found),
    first,
    omega (arith, lt-length_of_get s.allocated i false first.free, v.pages),
    omega (arith, v.pages, v.counted),
    taken-IsValid s i v first.free,
  )
  | inr (full, all) ↦ inr (ground (arith, full), omega (arith, v.pages, v.counted))
]

-- The state after the page at index `i` was freed: its bytes are 0.
abbrev pub freed : Machine → ℕ → Machine
freed s i = record s {
  memory = clear s.memory (get_page_pointer s i) page_size;
  allocated = set s.allocated i false;
  used = s.used - 1;
}

-- Every index below the length has a mark.
status :
    (bs : List Bool) (i : ℕ)
    → i < length bs
    → (get_elem? bs i ≡ some true) ⊎ (get_elem? bs i ≡ some false)
status [] i h = absurd (omega arith)
status (true ∷ bs) zero h = inl refl
status (false ∷ bs) zero h = inr refl
status (b ∷ bs) (suc i) h = status bs i (omega arith)

module _ (s : Machine) (i : ℕ) (v : IsValid s) (h : i < max_pages) where
  pub pointer_aligned : get_page_pointer s i % page_size ≡ 0
  unfolding get_page_pointer
  pointer_aligned = omega (arith, v.aligned)

  pub pointer_mapped : mapped s (get_page_pointer s i) page_size ≡ true
  unfolding mapped get_page_pointer
  pointer_mapped = ground arith

  clear_page_runs :
      (t : Machine)
      → t.base ≡ s.base
      → clear_page (get_page_pointer s i) t
        ≡ ok (tt, record t { memory = clear t.memory (get_page_pointer s i) page_size })
  unfolding clear_page mapped get_page_pointer
  clear_page_runs t e = ground (arith, e)

  free_page_runs :
      get_elem? s.allocated i ≡ some true → free_page (get_page_pointer s i) s ≡ ok (tt, freed s i)
  unfolding free_page
  free_page_runs used = ground (
    arith,
    used,
    pointer_aligned,
    get_page_index-pointer s i v h,
    clear_page_runs (record s { allocated = set s.allocated i false }) refl,
  )

  free_page_asserts :
      get_elem? s.allocated i ≡ some false → free_page (get_page_pointer s i) s ≡ stop assertion
  unfolding free_page
  free_page_asserts free = ground (arith, free, pointer_aligned, get_page_index-pointer s i v h)

  freed-IsValid : get_elem? s.allocated i ≡ some true → IsValid (freed s i)
  freed-IsValid used = record {
    pages = rw length-set v.pages;
    refs = v.refs;
    counted = omega (arith, count-set-false s.allocated i used, v.counted);
    aligned = v.aligned;
    low = v.low;
  }

  -- In a valid state vms_free_page of the page at an index of the array: if the page is in use, it
  -- is cleared, unmarked and no longer counted, nothing else changes and the new state is valid; if
  -- it is not in use (a double free), the assertion fails.
  pub free_page_lem :
      ((get_elem? s.allocated i ≡ some true)
        × (free_page (get_page_pointer s i) s ≡ ok (tt, freed s i))
        × IsValid (freed s i))
      ⊎ ((get_elem? s.allocated i ≡ some false)
          × (free_page (get_page_pointer s i) s ≡ stop assertion))
  free_page_lem = elim (status s.allocated i (rw v.pages h)) [
    | inl used ↦ inl (used, free_page_runs used, freed-IsValid used)
    | inr free ↦ inr (free, free_page_asserts free)
  ]

free_page-taken :
    (s : Machine) (i : ℕ)
    → IsFirstFree s.allocated i
    → i < max_pages
    → IsValid (taken s i)
    → free_page (get_page_pointer s i) (taken s i)
      ≡ ok (tt, record s { memory = clear s.memory (get_page_pointer s i) page_size })
unfolding get_page_pointer
free_page-taken s i first h w = ground (
  arith,
  free_page_runs (taken s i) i w h
      (get_elem?-set_self s.allocated i true (lt-length_of_get s.allocated i false first.free)),
  set-set_back s.allocated i true first.free,
)

-- Freeing the page that vms_new_page has just returned, from a valid state, gives back the state
-- before, but for the bytes of that page, which are now 0.
pub free-new_page :
    (s : Machine) (p : ℕ) (t : Machine)
    → IsValid s
    → new_page s ≡ ok (p, t)
    → free_page p t ≡ ok (tt, record s { memory = clear s.memory p page_size })
free-new_page s p t v e = elim (new_page_lem s v) [
  | inl (i, run, first, h, room, w) ↦
      subst (λ r. free_page r.0 r.1 ≡ ok (tt, record s { memory = clear s.memory r.0 page_size }))
        (ok-injective _ _ (sym run ∙ e)) (free_page-taken s i first h w)
  | inr (run, full) ↦ absurd (cc)
]
