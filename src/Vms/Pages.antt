-- ===== src/Vms/Pages.antt =====
-- vms/src/pages.c: the page allocator.
pub mod Free
pub mod Alloc
use kernel_modules.Common.{
  ℕ, ◌+◌, ◌-◌, ◌*◌, ◌/◌, ◌%◌, ◌^◌, Bool, true, false, ◌==◌, if◌then◌else◌, List, [], ◌∷◌, Option,
  none, some, ◌⊎◌, inl, inr, get_elem?, set,
}
use kernel_modules.Vms.Machine.{
  Machine, M, exit, assertion, out_of_bounds, ok, stop, ◌>>◌, fail, assert, page_size, clear_page,
}

-- `((uint8_t*) base_pointer) + index * PAGE_SIZE`, for an index of the array.
unfoldable pub get_page_pointer : Machine → ℕ → ℕ
get_page_pointer s index = s.base + index * page_size

-- The uint64_t difference wraps, and the quotient is cut to the 32 bits of an `int`.
unfoldable pub get_page_index : Machine → ℕ → ℕ
get_page_index s pointer = (pointer + 2 ^ 64 - s.base) % 2 ^ 64 / page_size % 2 ^ 32

unfoldable pub check_page_aligned : ℕ → M (Unit {0})
check_page_aligned pointer = assert (pointer % page_size == 0)

-- `page_size_now` is what sysconf returns; `mapping` is what mmap returns: the address of a fresh
-- mapping of MAX_PAGES pages, whose bytes are 0, or the errno of MAP_FAILED.
unfoldable pub init : ℕ → ℕ ⊎ ℕ → M (Unit {0})
unfolding check_page_aligned
init page_size_now mapping = do
  assert (page_size_now == page_size)
  elim mapping [
    | inl address ↦ λ s. check_page_aligned address (record s { base = address; memory = λ _. 0 })
    | inr errno ↦ fail (exit errno)
  ]

-- The loop of vms_new_page, at index `i` with the rest of the array.
unfoldable pub find_free : List Bool → ℕ → Option ℕ
find_free [] i = none
find_free (a ∷ rest) i = if a then find_free rest (i + 1) else some i

-- The exit code is ENOMEM.
unfoldable pub new_page : M ℕ
unfolding find_free get_page_pointer
new_page s = elim (find_free s.allocated 0) [
  | some i ↦
      ok (get_page_pointer s i, record s { allocated = set s.allocated i true; used = s.used + 1 })
  | none ↦ stop (exit 12)
]

-- `assert(allocated[i])`, then `allocated[i] = 0`.
unfoldable pub release : ℕ → M (Unit {0})
release i s = elim (get_elem? s.allocated i) [
  | none ↦ stop out_of_bounds
  | some true ↦ ok (tt, record s { allocated = set s.allocated i false })
  | some false ↦ stop assertion
]

-- `--used_pages` follows the assertion: there is a page in use.
unfoldable pub free_page : ℕ → M (Unit {0})
unfolding check_page_aligned release get_page_index
free_page pointer = do
  check_page_aligned pointer
  (λ s. release (get_page_index s pointer) s)
  clear_page pointer
  (λ s. ok (tt, record s { used = s.used - 1 }))

unfoldable pub get_used_pages : Machine → ℕ
get_used_pages s = s.used
