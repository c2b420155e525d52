-- ===== src/Pht/Base/Unique.antt =====
-- The invariant of the table of pht/src/hash-table-base.c: each entry stands in the list of its
-- hash, and a key stands in the table once.
use kernel_modules.Common.{
  ℕ, zero, suc, ◌<◌, ◌≡◌, refl, sym, ◌∙◌, List, [], ◌∷◌, Option, none, some, get_elem?, get_or, set,
  replicate, length, length-set, get_elem?-set_self, get_elem?-set_ne, arith, Bool-cases,
  Option-cases, inl, inr, ◌==◌,
}
use mathlib.Core.Path.{subst}
use kernel_modules.Pht.Text.{hash_table_capacity, streq}
use kernel_modules.Pht.Chain.{ListHead, get_list_entry, set_value}
use kernel_modules.Pht.Base.{HashTable, create, bucket, get_list_head, add_to_list, add_entry}
use kernel_modules.Pht.Base.Spec.{bucket-lt}

-- The keys of a list have the hash `i` of their list, and each is found nowhere after its entry.
abbrev pub IsChain : ℕ → ListHead → Type 0
IsChain i [] = Unit
IsChain i (entry ∷ rest) =
    (bucket entry.key ≡ i) × (get_list_entry rest entry.key ≡ none) × IsChain i rest

pub record IsHashTable (table : HashTable) : Type 0 where
  pub capacity : length table ≡ hash_table_capacity
  pub chains :
      (i : ℕ) (list_head : ListHead) → get_elem? table i ≡ some list_head → IsChain i list_head

set_value_missing :
    (chain : ListHead) (key : List ℕ) (value : ℕ) (other : List ℕ)
    → get_list_entry chain other ≡ none
    → get_list_entry (set_value chain key value) other ≡ none
unfolding get_list_entry set_value
set_value_missing [] key value other missing = refl
set_value_missing (e ∷ rest) key value other missing = elim (Bool-cases (streq e.key other)) [
  | inl here ↦ absurd (cc (rw here at missing))
  | inr apart ↦ elim (Bool-cases (streq e.key key)) [
    | inl same ↦ rw (same, apart) (rw apart at missing)
    | inr before ↦ rw (before, apart) (set_value_missing rest key value other (rw apart at missing))
  ]
]

set_value-IsChain :
    (i : ℕ) (chain : ListHead) (key : List ℕ) (value : ℕ)
    → IsChain i chain
    → IsChain i (set_value chain key value)
unfolding set_value
set_value-IsChain i [] key value h = tt
set_value-IsChain i (e ∷ rest) key value (at, once, below) = elim (Bool-cases (streq e.key key)) [
  | inl here ↦ rw here (at, once, below)
  | inr before ↦
      rw before
        (at, set_value_missing rest key value e.key once, set_value-IsChain i rest key value below)
]

add_to_list-IsChain :
    (chain : ListHead) (key : List ℕ) (value : ℕ)
    → IsChain (bucket key) chain
    → IsChain (bucket key) (add_to_list chain key value)
unfolding add_to_list
add_to_list-IsChain chain key value h = elim (Option-cases (get_list_entry chain key)) [
  | inr (entry, found) ↦ rw (add_to_list, found) (set_value-IsChain (bucket key) chain key value h)
  | inl missing ↦ rw (add_to_list, missing) (refl, missing, h)
]

get_elem?_or :
    (table : HashTable) (i : ℕ) → i < length table → get_elem? table i ≡ some (get_or table i [])
get_elem?_or [] i h = absurd (omega arith)
get_elem?_or (x ∷ t) zero h = refl
get_elem?_or (x ∷ t) (suc i) h = get_elem?_or t i (omega arith)

get_elem?_head :
    (table : HashTable) (key : List ℕ)
    → length table ≡ hash_table_capacity
    → get_elem? table (bucket key) ≡ some (get_list_head table key)
unfolding get_list_head
get_elem?_head table key full = get_elem?_or table (bucket key) (rw full (bucket-lt key))

same_some : {o : Option ListHead} (b c : ListHead) → o ≡ some b → o ≡ some c → b ≡ c
same_some b c e f = cc

get_elem?-replicate :
    (n i : ℕ) (chain : ListHead) → get_elem? (replicate n []) i ≡ some chain → chain ≡ []
get_elem?-replicate zero i chain h = absurd (cc)
get_elem?-replicate (suc n) zero chain h = cc
get_elem?-replicate (suc n) (suc i) chain h = get_elem?-replicate n i chain h

pub create-IsHashTable : IsHashTable create
unfolding create
create-IsHashTable = record {
  capacity = refl;
  chains = λ i chain found.
      subst (IsChain i) (sym (get_elem?-replicate hash_table_capacity i chain found)) tt;
}

-- hash_table_base_add_entry keeps the invariant, for any key and value: the array keeps its
-- capacity, each entry stands in the list of its key's hash, and no key stands in a list twice.
pub add_entry-IsHashTable :
    (table : HashTable) (key : List ℕ) (value : ℕ)
    → IsHashTable table
    → IsHashTable (add_entry table key value)
unfolding add_entry
add_entry-IsHashTable table key value h = record {
  capacity = length-set table (bucket key) _ ∙ h.capacity;
  chains = λ i chain found. elim (Bool-cases (bucket key == i)) [
    | inl same ↦ at_bucket i chain (ground (arith, same)) found
    | inr apart ↦ h.chains i chain (sym (get_elem?-set_ne table _ (ground (arith, apart))) ∙ found)
  ];
}
  where
    at_bucket :
        (i : ℕ) (chain : ListHead)
        → bucket key ≡ i
        → get_elem? (set table (bucket key) (add_to_list (get_list_head table key) key value)) i
          ≡ some chain
        → IsChain i chain
    at_bucket i chain at found =
        subst (λ j. IsChain j chain) at
          (subst (IsChain (bucket key))
            (same_some _ chain
              (get_elem?-set_self table (bucket key) _ (rw h.capacity (bucket-lt key)))
              (rw (sym at) at found))
            (add_to_list-IsChain (get_list_head table key) key value
              (h.chains (bucket key) _ (get_elem?_head table key h.capacity))))
