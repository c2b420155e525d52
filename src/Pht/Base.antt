-- ===== src/Pht/Base.antt =====
-- pht/src/hash-table-base.c: the hash table without locks. A key is a string that is not NULL and
-- does not change while the table holds it.
pub mod Spec
pub mod Unique
pub mod Destroy
use kernel_modules.Common.{
  ℕ, zero, suc, ◌+◌, ◌*◌, ◌%◌, ◌<◌, ◌≡◌, Bool, true, false, if◌then◌else◌, List, [], ◌∷◌, ◌++◌,
  Option, none, some, get_elem?, get_or, set, replicate,
}
use kernel_modules.Pht.Text.{hash_table_capacity, bernstein_hash}
use kernel_modules.Pht.Chain.{ListEntry, ListHead, get_list_entry, set_value, value_of}

-- `struct hash_table_base`.
abbrev pub HashTable : Type 0
HashTable = List ListHead

unfoldable pub create : HashTable
create = replicate hash_table_capacity []

unfoldable pub bucket : List ℕ → ℕ
bucket key = bernstein_hash key % hash_table_capacity

-- The list in the table; the array has an entry at every such index.
unfoldable pub get_list_head : HashTable → List ℕ → ListHead
unfolding bucket
get_list_head table key = get_or table (bucket key) []

abbrev pub is_some : Option ListEntry → Bool
is_some none = false
is_some (some entry) = true

unfoldable pub contains : HashTable → List ℕ → Bool
unfolding get_list_head get_list_entry
contains table key = is_some (get_list_entry (get_list_head table key) key)

-- What the list is after the call: an update in place, or a new first entry.
unfoldable pub add_to_list : ListHead → List ℕ → ℕ → ListHead
unfolding get_list_entry set_value
add_to_list list_head key value = elim (get_list_entry list_head key) [
  | some entry ↦ set_value list_head key value
  | none ↦ record { key = key; value = value } ∷ list_head
]

unfoldable pub add_entry : HashTable → List ℕ → ℕ → HashTable
unfolding get_list_head bucket add_to_list
add_entry table key value = set table (bucket key) (add_to_list (get_list_head table key) key value)

-- `none` is the failed assertion.
unfoldable pub get_value : HashTable → List ℕ → Option ℕ
unfolding get_list_head get_list_entry
get_value table key = value_of (get_list_entry (get_list_head table key) key)

-- The while loop of one list: each round removes the first entry and frees it.
unfoldable pub drain : ListHead → List ListEntry → ListHead × List ListEntry
drain [] freed = ([], freed)
drain (entry ∷ rest) freed = drain rest (freed ++ (entry ∷ []))

-- The loop of hash_table_base_destroy: the lists that it leaves, and the entries that it freed in
-- order.
unfoldable pub destroy : HashTable → List ListEntry → HashTable × List ListEntry
unfolding drain
destroy [] freed = ([], freed)
destroy (list_head ∷ rest) freed =
    let (left, freed') = drain list_head freed in
    let (lists, freed'') = destroy rest freed' in (left ∷ lists, freed'')

-- The additions of a loop, in order: run_v1, run_v2 and main of pht/src/pht-tester.c make such
-- calls.
unfoldable pub add_entries : HashTable → List (List ℕ × ℕ) → HashTable
unfolding add_entry
add_entries table [] = table
add_entries table ((key, value) ∷ rest) = add_entries (add_entry table key value) rest
