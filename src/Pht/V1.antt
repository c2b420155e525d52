-- ===== src/Pht/V1.antt =====
-- pht/src/hash-table-v1.c: one mutex for the table. Its get_list_entry, contains and get_value are
-- those of pht/src/hash-table-base.c; they take no mutex.
use kernel_modules.Common.{
  ℕ, ◌≡◌, refl, ap, length, replicate, Bool, true, false, List, [], Option, none, some,
}
use kernel_modules.Pht.Base.{HashTable, bucket, contains, get_value, destroy}
use kernel_modules.Pht.Chain.{ListEntry}
use kernel_modules.Pht.Base.Destroy.{entries, destroy_all}
use kernel_modules.Pht.Threads.{Threads, begin, step}

abbrev pub v1_lock_of : List ℕ → ℕ
v1_lock_of key = 0

unfoldable pub v1_create : (ℕ → List (List ℕ × ℕ)) → Threads
unfolding begin
v1_create todo = begin todo

unfoldable pub v1_contains : Threads → List ℕ → Bool
unfolding contains
v1_contains s key = contains s.table key

unfoldable pub v1_get_value : Threads → List ℕ → Option ℕ
unfolding get_value
v1_get_value s key = get_value s.table key

-- One step of a thread in hash_table_v1_add_entry.
unfoldable pub v1_step : ℕ → Threads → Option Threads
unfolding step
v1_step i s = step v1_lock_of i s

pub v1_coarse : (a b : List ℕ) → bucket a ≡ bucket b → v1_lock_of a ≡ v1_lock_of b
v1_coarse a b same = refl

abbrev pub is_held : Option ℕ → Bool
is_held none = false
is_held (some i) = true

-- The lists that hash_table_v1_destroy leaves and the entries that it frees, and whether it destroys
-- a mutex that a thread holds.
unfoldable pub v1_destroy : Threads → (HashTable × List ListEntry) × Bool
unfolding destroy
v1_destroy s = (destroy s.table [], is_held (s.holder 0))

-- hash_table_v1_destroy frees each entry once, list by list, and leaves every list empty.
pub v1_destroy_lem :
    (s : Threads)
    → v1_destroy s ≡ ((replicate (length s.table) [], entries s.table), is_held (s.holder 0))
unfolding v1_destroy
v1_destroy_lem s = ap (λ d. (d, is_held (s.holder 0))) (destroy_all s.table)
