-- ===== src/Pht/Threads/Invariant.antt =====
-- The locked tables under every schedule: who is inside a call, and what the table then is.
use kernel_modules.Common.{
  ℕ, ◌≡◌, ◌≢◌, refl, sym, List, [], ◌∷◌, ◌++◌, Option, none, some, ◌==◌, set, length, arith,
  Bool-cases, inl, inr, ◌⊎◌,
}
use kernel_modules.Pht.Text.{hash_table_capacity}
use kernel_modules.Pht.Chain.{ListEntry, ListHead, get_list_entry}
use kernel_modules.Pht.Base.{HashTable, create, bucket, get_list_head, add_entry, add_entries}
use kernel_modules.Pht.Base.Spec.{get_or-set_ne, create-length}
use kernel_modules.Pht.Threads.{
  Pc, idle, searching, updating, inserting, unlocking, Threads, at, begin,
}

-- The key of the call that a thread is inside of, between its lock and its unlock.
abbrev pub critical : Pc → Option (List ℕ)
critical idle = none
critical (searching key value) = some key
critical (updating key value) = some key
critical (inserting key value) = some key
critical (unlocking key) = some key

-- What a thread's search has found is still so.
abbrev pub Agrees : HashTable → Pc → Type 0
Agrees table idle = Unit
Agrees table (searching key value) = Unit
Agrees table (updating key value) =
    (entry : ListEntry) × (get_list_entry (get_list_head table key) key ≡ some entry)
Agrees table (inserting key value) = get_list_entry (get_list_head table key) key ≡ none
Agrees table (unlocking key) = Unit

module _ (table : HashTable) (key : List ℕ) (chain : ListHead) (other : List ℕ)
    (apart : bucket other ≢ bucket key) where
  same_head : get_list_head (set table (bucket key) chain) other ≡ get_list_head table other
  unfolding get_list_head
  same_head = get_or-set_ne table (bucket key) (bucket other) chain (λ e. apart (sym e))

pub Agrees-set :
    (table : HashTable) (key : List ℕ) (chain : ListHead) (p : Pc)
    → ((k : List ℕ) → critical p ≡ some k → bucket k ≢ bucket key)
    → Agrees table p
    → Agrees (set table (bucket key) chain) p
Agrees-set table key chain idle apart a = tt
Agrees-set table key chain (searching k v) apart a = tt
Agrees-set table key chain (updating k v) apart a =
    (a.0, rw (same_head table key chain k (apart k refl)) a.1)
Agrees-set table key chain (inserting k v) apart a =
    rw (same_head table key chain k (apart k refl)) a
Agrees-set table key chain (unlocking k) apart a = tt

-- The additions without their threads.
unfoldable pub calls : List (ℕ × (List ℕ × ℕ)) → List (List ℕ × ℕ)
calls [] = []
calls ((i, pair) ∷ rest) = pair ∷ calls rest

pub add_entries-append :
    (table : HashTable) (added : List (ℕ × (List ℕ × ℕ))) (i : ℕ) (key : List ℕ) (value : ℕ)
    → add_entries table (calls (added ++ ((i, (key, value)) ∷ [])))
      ≡ add_entry (add_entries table (calls added)) key value
unfolding add_entries calls
add_entries-append table [] i key value = refl
add_entries-append table ((j, (k, v)) ∷ added) i key value =
    add_entries-append (add_entry table k v) added i key value

pub at_same {ℓ} : {A : Type ℓ} (i : ℕ) (x : A) (f : ℕ → A) → at i x f i ≡ x
at_same i x f = elim (Bool-cases (i == i)) [ inl e ↦ rw e | inr e ↦ absurd (ground (arith, e)) ]

pub at_other {ℓ} : {A : Type ℓ} (i : ℕ) (x : A) (f : ℕ → A) (j : ℕ) → j ≢ i → at i x f j ≡ f j
at_other i x f j apart = elim (Bool-cases (j == i)) [
  | inl e ↦ absurd (apart (ground (arith, e)))
  | inr e ↦ rw e
]

pub same_or_other : (i j : ℕ) → (j ≡ i) ⊎ (j ≢ i)
same_or_other i j = elim (Bool-cases (j == i)) [
  | inl e ↦ inl (ground (arith, e))
  | inr e ↦ inr (ground (arith, e))
]

module _ (lock_of : List ℕ → ℕ) where
  -- A thread inside a call holds the call's mutex, what its search found is still so, and the table
  -- is what the additions so far make of a new one.
  pub record IsLocked (s : Threads) : Type 0 where
    pub holds :
        (i : ℕ) (key : List ℕ) → critical (s.pc i) ≡ some key → s.holder (lock_of key) ≡ some i
    pub agrees : (i : ℕ) → Agrees s.table (s.pc i)
    pub capacity : length s.table ≡ hash_table_capacity
    pub linear : s.table ≡ add_entries create (calls s.added)

  pub begin-IsLocked : (todo : ℕ → List (List ℕ × ℕ)) → IsLocked (begin todo)
  unfolding begin add_entries calls
  begin-IsLocked todo = record {
    holds = λ i key e. absurd (cc);
    agrees = λ i. tt;
    capacity = create-length;
    linear = refl;
  }
