-- ===== src/Pht/V2.antt =====
-- pht/src/hash-table-v2.c: one mutex for each list. Its get_list_entry, contains and get_value are
-- those of pht/src/hash-table-base.c; they take no mutex.
use kernel_modules.Common.{
  ℕ, ◌<◌, refl, true, false, none, some, if◌then◌else◌, arith, ◌≡◌, length, Bool, List, [], ◌∷◌,
  ◌++◌, ◌+◌, map, Option,
}
use kernel_modules.Pht.Base.{HashTable, bucket, contains, get_value, drain}
use kernel_modules.Pht.Chain.{ListEntry}
use kernel_modules.Pht.Threads.{Threads, begin, step}

unfoldable pub v2_lock_of : List ℕ → ℕ
unfolding bucket
v2_lock_of key = bucket key

unfoldable pub v2_create : (ℕ → List (List ℕ × ℕ)) → Threads
unfolding begin
v2_create todo = begin todo

unfoldable pub v2_contains : Threads → List ℕ → Bool
unfolding contains
v2_contains s key = contains s.table key

unfoldable pub v2_get_value : Threads → List ℕ → Option ℕ
unfolding get_value
v2_get_value s key = get_value s.table key

-- One step of a thread in hash_table_v2_add_entry.
unfoldable pub v2_step : ℕ → Threads → Option Threads
unfolding step
v2_step i s = step v2_lock_of i s

pub v2_coarse : (a b : List ℕ) → bucket a ≡ bucket b → v2_lock_of a ≡ v2_lock_of b
unfolding v2_lock_of
v2_coarse a b same = same

-- What is given to free: an entry, which is an allocation of its own, or the mutex inside of a list's
-- slot of the table, which is none.
pub data Freed : Type 0 where
  entry : ListEntry → Freed
  write_mutex : ℕ → Freed

abbrev pub is_allocation : Freed → Bool
is_allocation (entry e) = true
is_allocation (write_mutex i) = false

-- The loop of hash_table_v2_destroy, from the list with the index `i` on: the lists that it leaves and
-- what it frees, or none if it calls free on what is no allocation.
unfoldable pub v2_destroy_from : HashTable → ℕ → List Freed → Option (HashTable × List Freed)
unfolding drain
v2_destroy_from [] i freed = some ([], freed)
v2_destroy_from (list_head ∷ rest) i freed =
    let (left, entries) = drain list_head [] in
    let later = v2_destroy_from rest (i + 1) (freed ++ (write_mutex i ∷ map entry entries)) in
    if is_allocation (write_mutex i)
    then elim later [ none ↦ none | some (lists, all) ↦ some (left ∷ lists, all) ]
    else none

unfoldable pub v2_destroy : Threads → Option (HashTable × List Freed)
unfolding v2_destroy_from
v2_destroy s = v2_destroy_from s.table 0 []

-- hash_table_v2_destroy of a table with a list ends in a free of the first list's mutex.
pub v2_destroy_lem : (s : Threads) → 0 < length s.table → v2_destroy s ≡ none
unfolding v2_destroy
v2_destroy_lem s h = first s.table h
  where
    first : (table : HashTable) → 0 < length table → v2_destroy_from table 0 [] ≡ none
    first [] h = absurd (omega arith)
    first (list_head ∷ rest) h = unfold v2_destroy_from in refl
