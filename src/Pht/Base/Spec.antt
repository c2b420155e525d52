-- ===== src/Pht/Base/Spec.antt =====
-- The table of pht/src/hash-table-base.c as a map from strings to values.
use kernel_modules.Common.{
  ℕ, zero, suc, ◌%◌, ◌<◌, ◌≡◌, ◌≢◌, refl, ap, ◌∙◌, Bool, true, false, if◌then◌else◌, List, [], ◌∷◌,
  Option, none, some, get_or, set, replicate, length, length-set, arith, Bool-cases, Option-cases,
  inl, inr, ◌==◌,
}
use kernel_modules.Pht.Text.{hash_table_capacity, streq, hash-streq}
use kernel_modules.Pht.Chain.{ListHead, get_list_entry, chain_value, chain_value-set_value}
use kernel_modules.Pht.Base.{
  HashTable, create, bucket, get_list_head, contains, add_to_list, add_entry, get_value,
  add_entries,
}

pub bucket-lt : (key : List ℕ) → bucket key < hash_table_capacity
unfolding bucket
bucket-lt key = omega arith

streq-bucket : (a b : List ℕ) → bucket a ≢ bucket b → streq a b ≡ false
unfolding bucket
streq-bucket a b apart = elim (Bool-cases (streq a b)) [
  | inl same ↦ absurd (apart (ap (λ h. h % hash_table_capacity) (hash-streq a b same)))
  | inr different ↦ different
]

get_or-replicate : (n i : ℕ) → get_or {A = ListHead} (replicate n []) i [] ≡ []
get_or-replicate zero i = refl
get_or-replicate (suc n) zero = refl
get_or-replicate (suc n) (suc i) = get_or-replicate n i

pub get_or-set_self :
    (t : HashTable) (i : ℕ) (v : ListHead) → i < length t → get_or (set t i v) i [] ≡ v
get_or-set_self [] i v h = absurd (omega arith)
get_or-set_self (x ∷ t) zero v h = refl
get_or-set_self (x ∷ t) (suc i) v h = get_or-set_self t i v (omega arith)

pub get_or-set_ne :
    (t : HashTable) (i j : ℕ) (v : ListHead) → i ≢ j → get_or (set t i v) j [] ≡ get_or t j []
get_or-set_ne [] i j v h = refl
get_or-set_ne (x ∷ t) zero zero v h = absurd (h refl)
get_or-set_ne (x ∷ t) zero (suc j) v h = refl
get_or-set_ne (x ∷ t) (suc i) zero v h = refl
get_or-set_ne (x ∷ t) (suc i) (suc j) v h = get_or-set_ne t i j v (λ e. h (ap suc e))

chain_value-head :
    (chain : ListHead) (key : List ℕ) (value : ℕ) (other : List ℕ)
    → chain_value (record { key = key; value = value } ∷ chain) other
      ≡ (if streq key other then some value else chain_value chain other)
unfolding get_list_entry
chain_value-head chain key value other = elim (Bool-cases (streq key other)) [
  | inl same ↦ rw same
  | inr apart ↦ rw apart
]

pub chain_value-add :
    (chain : ListHead) (key : List ℕ) (value : ℕ) (other : List ℕ)
    → chain_value (add_to_list chain key value) other
      ≡ (if streq key other then some value else chain_value chain other)
unfolding add_to_list
chain_value-add chain key value other = elim (Option-cases (get_list_entry chain key)) [
  | inr (entry, found) ↦
      rw (add_to_list, found) (chain_value-set_value chain key value other entry found)
  | inl missing ↦ rw (add_to_list, missing) (chain_value-head chain key value other)
]

-- A key's value after an addition is the added one for an equal string and the value before for any
-- other: the table refines a map from strings. A lookup of an absent key fails.
pub get_value-add_entry :
    (table : HashTable) (key : List ℕ) (value : ℕ) (other : List ℕ)
    → length table ≡ hash_table_capacity
    → get_value (add_entry table key value) other
      ≡ (if streq key other then some value else get_value table other)
unfolding get_value add_entry get_list_head
get_value-add_entry table key value other full = elim (Bool-cases (bucket key == bucket other)) [
  | inl same ↦
      let at : bucket key ≡ bucket other = ground (arith, same) in
      rw
        (
          at,
          get_or-set_self table (bucket other)
              (add_to_list (get_or table (bucket other) []) key value) (rw full (bucket-lt other)),
        )
        (chain_value-add (get_or table (bucket other) []) key value other)
  | inr apart ↦ rw (
    get_or-set_ne table (bucket key) (bucket other)
        (add_to_list (get_or table (bucket key) []) key value) (ground (arith, apart)),
    streq-bucket key other (ground (arith, apart)),
  )
]

abbrev pub is_present : Option ℕ → Bool
is_present none = false
is_present (some v) = true

-- hash_table_base_contains answers whether the map has the key, that is, whether
-- hash_table_base_get_value passes its assertion.
pub contains-get_value :
    (table : HashTable) (key : List ℕ) → contains table key ≡ is_present (get_value table key)
unfolding contains get_value
contains-get_value table key = ground (arith)

pub length-add_entry :
    (table : HashTable) (key : List ℕ) (value : ℕ)
    → length (add_entry table key value) ≡ length table
unfolding add_entry
length-add_entry table key value = length-set table (bucket key) _

-- The value of the last pair whose key is the string, else `before`.
unfoldable pub last_value : List (List ℕ × ℕ) → List ℕ → Option ℕ → Option ℕ
last_value [] key before = before
last_value ((k, value) ∷ rest) key before =
    last_value rest key (if streq k key then some value else before)

value_after :
    (pairs : List (List ℕ × ℕ)) (table : HashTable) (key : List ℕ)
    → length table ≡ hash_table_capacity
    → get_value (add_entries table pairs) key ≡ last_value pairs key (get_value table key)
unfolding add_entries last_value
value_after [] table key full = refl
value_after ((k, value) ∷ rest) table key full =
    value_after rest (add_entry table k value) key (length-add_entry table k value ∙ full)
    ∙ ap (last_value rest key) (get_value-add_entry table k value key full)

pub create-length : length create ≡ hash_table_capacity
unfolding create
create-length = refl

create_empty : (key : List ℕ) → get_value create key ≡ none
unfolding get_value get_list_head create get_list_entry
create_empty key = rw (get_or-replicate hash_table_capacity (bucket key))

-- After any additions to a new table, hash_table_base_get_value of a string returns the value that
-- was added last for an equal string, and fails its assertion if there was none;
-- hash_table_base_contains says which.
pub add_entries-last :
    (pairs : List (List ℕ × ℕ)) (key : List ℕ)
    → (get_value (add_entries create pairs) key ≡ last_value pairs key none)
      × (contains (add_entries create pairs) key ≡ is_present (last_value pairs key none))
add_entries-last pairs key =
    (runs, contains-get_value (add_entries create pairs) key ∙ ap is_present runs)
  where
    runs : get_value (add_entries create pairs) key ≡ last_value pairs key none
    runs = value_after pairs create key create-length ∙ ap (last_value pairs key) (create_empty key)
