-- ===== src/Pht/Base/Destroy.antt =====
-- hash_table_base_destroy frees the whole table.
use kernel_modules.Common.{◌≡◌, sym, ap, ◌∙◌, List, [], ◌∷◌, ◌++◌, length, replicate}
use mathlib.Core.List.{append_assoc, append-nil}
use kernel_modules.Pht.Chain.{ListEntry, ListHead}
use kernel_modules.Pht.Base.{HashTable, drain, destroy}

-- The entries of the table, list by list.
abbrev pub entries : HashTable → List ListEntry
entries [] = []
entries (list_head ∷ rest) = list_head ++ entries rest

pub drain-all :
    (chain : ListHead) (freed : List ListEntry) → drain chain freed ≡ ([], freed ++ chain)
unfolding drain
drain-all [] freed = ap (λ l. ([], l)) (sym (append-nil freed))
drain-all (entry ∷ rest) freed =
    drain-all rest (freed ++ (entry ∷ []))
    ∙ ap (λ l. ([], l)) (append_assoc freed (entry ∷ []) rest)

destroy-from :
    (table : HashTable) (freed : List ListEntry)
    → destroy table freed ≡ (replicate (length table) [], freed ++ entries table)
unfolding destroy
destroy-from [] freed = ap (λ l. ([], l)) (sym (append-nil freed))
destroy-from (chain ∷ rest) freed = rw (
  drain-all chain freed,
  destroy-from rest (freed ++ chain),
  append_assoc freed chain (entries rest),
)

-- hash_table_base_destroy frees each entry of the table, once and in the order in which the lists
-- hold them, and leaves every list empty.
pub destroy_all :
    (table : HashTable) → destroy table [] ≡ (replicate (length table) [], entries table)
destroy_all table = destroy-from table []
