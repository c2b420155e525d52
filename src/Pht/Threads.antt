-- ===== src/Pht/Threads.antt =====
-- pht/src/hash-table-v1.c and pht/src/hash-table-v2.c: add_entry under a mutex, run by several
-- threads as run_v1 and run_v2 of pht/src/pht-tester.c do. The two files differ in the mutex that a
-- call takes: `lock_of` gives its number for a key.
pub mod Invariant
pub mod Holds
pub mod Preserve
pub mod Order
pub mod Outcome
pub mod Distinct
pub mod Leak
use kernel_modules.Common.{
  ℕ, zero, suc, ◌+◌, ◌≡◌, Bool, true, false, if◌then◌else◌, List, [], ◌∷◌, ◌++◌, Option, none, some,
  ◌==◌, set,
}
use kernel_modules.Pht.Chain.{get_list_entry, set_value}
use kernel_modules.Pht.Base.{HashTable, create, bucket, get_list_head}

-- Where a thread stands in its calls of add_entry.
pub data Pc : Type 0 where
  -- Before pthread_mutex_lock of the next call, or after the last call.
  idle : Pc
  -- Before get_list_entry.
  searching : List ℕ → ℕ → Pc
  -- Before `list_entry->value = value`, at the entry that the search found.
  updating : List ℕ → ℕ → Pc
  -- Before SLIST_INSERT_HEAD of the new entry.
  inserting : List ℕ → ℕ → Pc
  -- Before pthread_mutex_unlock.
  unlocking : List ℕ → Pc

-- The threads and what they share. `holder` is the thread that holds a mutex; `added` is no part of
-- the program: the additions, each with its thread, in the order in which they took effect.
pub record Threads : Type 0 where
  pub table : HashTable
  pub holder : ℕ → Option ℕ
  pub pc : ℕ → Pc
  pub todo : ℕ → List (List ℕ × ℕ)
  pub added : List (ℕ × (List ℕ × ℕ))

abbrev pub at {ℓ} : {A : Type ℓ} → ℕ → A → (ℕ → A) → ℕ → A
at i x f = λ j. if j == i then x else f j

-- After create, with each thread's calls.
unfoldable pub begin : (ℕ → List (List ℕ × ℕ)) → Threads
begin todo = record { table = create; holder = λ l. none; pc = λ i. idle; todo = todo; added = [] }

module _ (lock_of : List ℕ → ℕ) where
  -- pthread_mutex_lock: no step while any thread, the caller as well, holds the mutex.
  unfoldable pub lock : ℕ → Threads → List (List ℕ × ℕ) → Option Threads
  lock i s [] = none
  lock i s ((key, value) ∷ rest) = elim (s.holder (lock_of key)) [
    | some j ↦ none
    | none ↦ some (record s {
      holder = at (lock_of key) (some i) s.holder;
      pc = at i (searching key value) s.pc;
      todo = at i rest s.todo;
    })
  ]

  unfoldable pub search_entry : ℕ → Threads → List ℕ → ℕ → Threads
  unfolding get_list_head get_list_entry
  search_entry i s key value = elim (get_list_entry (get_list_head s.table key) key) [
    | some entry ↦ record s { pc = at i (updating key value) s.pc }
    | none ↦ record s { pc = at i (inserting key value) s.pc }
  ]

  -- The update returns with the mutex held.
  unfoldable pub update : ℕ → Threads → List ℕ → ℕ → Threads
  unfolding get_list_head bucket set_value
  update i s key value = record s {
    table = set s.table (bucket key) (set_value (get_list_head s.table key) key value);
    pc = at i idle s.pc;
    added = s.added ++ ((i, (key, value)) ∷ []);
  }

  unfoldable pub insert : ℕ → Threads → List ℕ → ℕ → Threads
  unfolding get_list_head bucket
  insert i s key value = record s {
    table =
        set s.table (bucket key) (record { key = key; value = value } ∷ get_list_head s.table key);
    pc = at i (unlocking key) s.pc;
    added = s.added ++ ((i, (key, value)) ∷ []);
  }

  unfoldable pub unlock : ℕ → Threads → List ℕ → Threads
  unlock i s key = record s { holder = at (lock_of key) none s.holder; pc = at i idle s.pc }

  unfoldable pub advance : ℕ → Threads → Pc → Option Threads
  unfolding lock search_entry update insert unlock
  advance i s idle = lock i s (s.todo i)
  advance i s (searching key value) = some (search_entry i s key value)
  advance i s (updating key value) = some (update i s key value)
  advance i s (inserting key value) = some (insert i s key value)
  advance i s (unlocking key) = some (unlock i s key)

  -- The next step of thread `i`; none if it waits for a mutex or has no call left.
  unfoldable pub step : ℕ → Threads → Option Threads
  unfolding advance
  step i s = advance i s (s.pc i)

  -- A thread that cannot go on stays where it is.
  unfoldable pub turn : ℕ → Threads → Threads
  unfolding step
  turn i s = elim (step i s) [ some t ↦ t | none ↦ s ]

  -- A schedule names the threads in the order of their turns.
  unfoldable pub run : List ℕ → Threads → Threads
  unfolding turn
  run [] s = s
  run (i ∷ rest) s = run rest (turn i s)
