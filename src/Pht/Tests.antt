-- ===== src/Pht/Tests.antt =====
-- The hash tables of pht/src run on small keys, and their theorems at concrete tables.
mod Tester
use kernel_modules.Common.{
  ℕ, ◌⊎◌, sym, ◌∙◌, zero, suc, get_elem?, inl, inr, ◌≡◌, ◌≢◌, arith, refl, true, false, Option,
  if◌then◌else◌, List, [], ◌∷◌, none, some, ◌==◌,
}
use kernel_modules.Pht.Text.{text, bernstein_hash, hash_loop, streq}
use kernel_modules.Pht.Chain.{get_list_entry, set_value}
use kernel_modules.Pht.Base.{
  HashTable, create, bucket, get_list_head, contains, add_to_list, add_entry, get_value,
  add_entries,
}
use kernel_modules.Pht.Base.Spec.{
  last_value, is_present, get_value-add_entry, add_entries-last, create-length,
}
use kernel_modules.Pht.Base.Unique.{IsHashTable, create-IsHashTable, add_entry-IsHashTable}
use kernel_modules.Pht.Threads.{
  idle, Threads, begin, lock, search_entry, update, insert, unlock, advance, step, turn, run,
}
use kernel_modules.Pht.Threads.Invariant.{begin-IsLocked, calls}
use kernel_modules.Pht.Threads.Preserve.{run_keeps}
use kernel_modules.Pht.Threads.Order.{all_calls}
use kernel_modules.Pht.Threads.Outcome.{one_inside, additions_in_order, finished_contains}
use kernel_modules.Pht.Threads.Distinct.{Call, IsDistinct}
use kernel_modules.Pht.Threads.Distinct.Progress.{distinct_goes_on}
use kernel_modules.Pht.Threads.Leak.{update_blocks}
use kernel_modules.Pht.Tester.{parse_uint32_t}
use kernel_modules.Pht.Tester.Parse.{accepted, parse_uint32_t_lem}
use kernel_modules.Pht.V1.{v1_lock_of, v1_coarse}
use kernel_modules.Pht.V2.{v2_lock_of, v2_coarse}

program : Unit {0}
unfolding bernstein_hash hash_loop streq get_list_entry set_value create bucket get_list_head
    contains add_to_list add_entry get_value add_entries begin lock search_entry update insert
    unlock advance step turn run
program = tt

-- "ab" and "bA" have one hash, 97 * 33 + 98 = 98 * 33 + 65.
abbrev ab : List ℕ
ab = 97 ∷ 98 ∷ []

abbrev bA : List ℕ
bA = 98 ∷ 65 ∷ []

abbrev pairs : List (List ℕ × ℕ)
pairs = (ab, 1) ∷ (bA, 2) ∷ (ab, 3) ∷ []

collision : bernstein_hash ab ≡ bernstein_hash bA
unfolding program
collision = refl

last_wins : get_value (add_entries create pairs) ab ≡ some 3
unfolding program
last_wins = refl

collision_kept : get_value (add_entries create pairs) bA ≡ some 2
unfolding program
collision_kept = refl

-- Threads 0 and 1 with one call each, and thread 2 with an update of its own key, thread 3 with a
-- key of another list.
abbrev todo : ℕ → List (List ℕ × ℕ)
todo i =
    if i == 0
    then (ab, 1) ∷ []
    else if i == 1
    then (bA, 2) ∷ []
    else if i == 2
    then (ab, 3) ∷ (ab, 4) ∷ []
    else if i == 3
    then (99 ∷ [], 5) ∷ []
    else []

-- Thread 1 waits while thread 0 is inside its call.
waits : step v1_lock_of 1 (run v1_lock_of (0 ∷ []) (begin todo)) ≡ none
unfolding program
waits = refl

get_value-add_entry_example :
    get_value (add_entry create ab 1) bA ≡ (if streq ab bA then some 1 else get_value create bA)
get_value-add_entry_example = get_value-add_entry create ab 1 bA create-length

add_entries-last_example :
    (get_value (add_entries create pairs) ab ≡ last_value pairs ab none)
    × (contains (add_entries create pairs) ab ≡ is_present (last_value pairs ab none))
add_entries-last_example = add_entries-last pairs ab

add_entry-IsHashTable_example : IsHashTable (add_entry create ab 1)
add_entry-IsHashTable_example = add_entry-IsHashTable create ab 1 create-IsHashTable

abbrev small_table : HashTable
small_table = (record { key = ab; value = 1 } ∷ record { key = bA; value = 2 } ∷ []) ∷ [] ∷ []

one_inside_example : v2_lock_of ab ≢ v2_lock_of (99 ∷ [])
unfolding program v2_lock_of
one_inside_example =
    one_inside v2_lock_of todo (0 ∷ 3 ∷ []) 0 3 ab (99 ∷ []) v2_coarse (omega arith) refl refl

additions_in_order_example :
    ((i : ℕ)
      → all_calls (run v1_lock_of (0 ∷ 1 ∷ 0 ∷ 0 ∷ 0 ∷ 1 ∷ 1 ∷ 1 ∷ []) (begin todo)) i ≡ todo i)
    × ((key : List ℕ)
        → get_value (run v1_lock_of (0 ∷ 1 ∷ 0 ∷ 0 ∷ 0 ∷ 1 ∷ 1 ∷ 1 ∷ []) (begin todo)).table key
          ≡ last_value
              (calls (run v1_lock_of (0 ∷ 1 ∷ 0 ∷ 0 ∷ 0 ∷ 1 ∷ 1 ∷ 1 ∷ []) (begin todo)).added)
              key
              none)
    × ((key : List ℕ)
        → contains (run v1_lock_of (0 ∷ 1 ∷ 0 ∷ 0 ∷ 0 ∷ 1 ∷ 1 ∷ 1 ∷ []) (begin todo)).table key
          ≡ is_present (
              last_value
                (calls (run v1_lock_of (0 ∷ 1 ∷ 0 ∷ 0 ∷ 0 ∷ 1 ∷ 1 ∷ 1 ∷ []) (begin todo)).added)
                key
                none))
additions_in_order_example =
    additions_in_order v1_lock_of todo (0 ∷ 1 ∷ 0 ∷ 0 ∷ 0 ∷ 1 ∷ 1 ∷ 1 ∷ []) v1_coarse

-- Thread 2 before the write of its second call.
abbrev before_update : Threads
before_update = run v1_lock_of (2 ∷ 2 ∷ 2 ∷ 2 ∷ 2 ∷ 2 ∷ []) (begin todo)

-- After the update thread 0 never gets the mutex.
update_blocks_example :
    ((run v1_lock_of (0 ∷ 2 ∷ 0 ∷ []) (turn v1_lock_of 2 before_update)).holder 0 ≡ some 2)
    × (lock v1_lock_of 0
          (run v1_lock_of (0 ∷ 2 ∷ 0 ∷ []) (turn v1_lock_of 2 before_update))
          ((bA, 9) ∷ [])
        ≡ none)
unfolding program
update_blocks_example =
    update_blocks v1_lock_of before_update 2 ab 4
      (run_keeps v1_lock_of v1_coarse (2 ∷ 2 ∷ 2 ∷ 2 ∷ 2 ∷ 2 ∷ []) (begin todo)
        (begin-IsLocked v1_lock_of todo))
      refl (0 ∷ 2 ∷ 0 ∷ []) 0 bA 9 [] refl

-- "4294967295" is the greatest number that the parser takes.
abbrev greatest : List ℕ
greatest = 52 ∷ 50 ∷ 57 ∷ 52 ∷ 57 ∷ 54 ∷ 55 ∷ 50 ∷ 57 ∷ 53 ∷ []

parses_greatest : parse_uint32_t greatest ≡ some 4294967295
unfolding parse_uint32_t
parses_greatest = refl

parse_uint32_t_lem_example : parse_uint32_t greatest ≡ accepted 0 10 (text greatest)
parse_uint32_t_lem_example = parse_uint32_t_lem greatest

-- Two threads with one call each, of different keys.
abbrev two_keys : ℕ → List (List ℕ × ℕ)
two_keys zero = (ab, 1) ∷ []
two_keys (suc zero) = (bA, 2) ∷ []
two_keys (suc (suc i)) = []

-- The two places of a call.
abbrev IsPlace : ℕ → ℕ → Call → Type 0
IsPlace i n a = ((i ≡ 0) × (n ≡ 0) × (a.0 ≡ ab)) ⊎ ((i ≡ 1) × (n ≡ 0) × (a.0 ≡ bA))

key_of : (k : List ℕ) (x : ℕ) (a : Call) → ◌≡◌ {A = Option Call} (some (k, x)) (some a) → a.0 ≡ k
key_of k x (l, y) e = cc

place : (i n : ℕ) (a : Call) → get_elem? (two_keys i) n ≡ some a → IsPlace i n a
place zero zero a h = inl (refl, refl, key_of ab 1 a h)
place zero (suc n) a h = absurd (cc)
place (suc zero) zero a h = inr (refl, refl, key_of bA 2 a h)
place (suc zero) (suc n) a h = absurd (cc)
place (suc (suc i)) n a h = absurd (cc)

different : (a b : List ℕ) → a ≡ ab → b ≡ bA → (streq a b ≡ false) × (streq b a ≡ false)
unfolding program
different a b e f = (rw (e, f) refl, rw (e, f) refl)

two_keys-IsDistinct : IsDistinct two_keys
two_keys-IsDistinct i j n m a b first second same = elim (place i n a first) [
  | inl (i0, n0, ka) ↦ elim (place j m b second) [
    | inl (j0, m0, kb) ↦ (i0 ∙ sym j0, n0 ∙ sym m0)
    | inr (j1, m0, kb) ↦ absurd (cc ((different a.0 b.0 ka kb).1, same))
  ]
  | inr (i1, n0, ka) ↦ elim (place j m b second) [
    | inl (j0, m0, kb) ↦ absurd (cc ((different b.0 a.0 kb ka).0, same))
    | inr (j1, m0, kb) ↦ (i1 ∙ sym j1, n0 ∙ sym m0)
  ]
]

-- Thread 1 waits for the mutex that thread 0 holds.
distinct_goes_on_example :
    (((run v1_lock_of (0 ∷ 1 ∷ []) (begin two_keys)).pc 1 ≡ idle)
      × ((run v1_lock_of (0 ∷ 1 ∷ []) (begin two_keys)).todo 1 ≡ []))
    ⊎ ((j : ℕ) × (t : Threads) × (step v1_lock_of j (run v1_lock_of (0 ∷ 1 ∷ []) (begin two_keys))
          ≡ some t))
distinct_goes_on_example =
    distinct_goes_on v1_lock_of two_keys (0 ∷ 1 ∷ []) 1 v1_coarse two_keys-IsDistinct
