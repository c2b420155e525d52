-- ===== src/Pht/Threads/Outcome.antt =====
-- What the threads have done to the locked tables, under every schedule.
use kernel_modules.Common.{
  some-injective, ℕ, zero, suc, ◌≡◌, ◌≢◌, refl, sym, ap, ◌∙◌, true, List, [], ◌∷◌, Option, none,
  some, ◌==◌, get_elem?, Bool-cases, inl, inr,
}
use mathlib.Core.List.{append-nil}
use kernel_modules.Pht.Text.{streq, streq_refl}
use kernel_modules.Pht.Base.{bucket, contains, get_value}
use kernel_modules.Pht.Base.Spec.{is_present, last_value, add_entries-last}
use kernel_modules.Pht.Threads.{idle, begin, run}
use kernel_modules.Pht.Threads.Invariant.{critical, calls, begin-IsLocked}
use kernel_modules.Pht.Threads.Preserve.{run_keeps}
use kernel_modules.Pht.Threads.Order.{by_thread, all_calls, run-all_calls}

-- A map from keys to mutexes that gives the keys of one list one mutex, which both versions have.
abbrev pub IsCoarse : (List ℕ → ℕ) → Type 0
IsCoarse lock_of = (a b : List ℕ) → bucket a ≡ bucket b → lock_of a ≡ lock_of b

-- Mutual exclusion: after every schedule of the threads from a new table, two different threads
-- that are inside calls of add_entry have keys with different mutexes.
pub one_inside :
    (lock_of : List ℕ → ℕ) (todo : ℕ → List (List ℕ × ℕ)) (schedule : List ℕ) (i j : ℕ)
    (a b : List ℕ)
    → IsCoarse lock_of
    → i ≢ j
    → critical ((run lock_of schedule (begin todo)).pc i) ≡ some a
    → critical ((run lock_of schedule (begin todo)).pc j) ≡ some b
    → lock_of a ≢ lock_of b
one_inside lock_of todo schedule i j a b coarse apart first second same =
    let v = run_keeps lock_of coarse schedule (begin todo) (begin-IsLocked lock_of todo) in
    apart (
      some-injective (
        sym (v.holds i a first)
        ∙ ap (run lock_of schedule (begin todo)).holder same
        ∙ v.holds j b second))

pub begin-all_calls : (todo : ℕ → List (List ℕ × ℕ)) (i : ℕ) → all_calls (begin todo) i ≡ todo i
unfolding begin by_thread
begin-all_calls todo i = refl

-- The threads' additions take effect one after the other: after every schedule from a new table,
-- the value of a key is that of its last addition in some order (`added`), in which the additions
-- of a thread, the call that it is inside of and its calls to come are its calls in their order.
pub additions_in_order :
    (lock_of : List ℕ → ℕ) (todo : ℕ → List (List ℕ × ℕ)) (schedule : List ℕ)
    → IsCoarse lock_of
    → let s = run lock_of schedule (begin todo) in
      ((i : ℕ) → all_calls s i ≡ todo i)
      × ((key : List ℕ) → get_value s.table key ≡ last_value (calls s.added) key none)
      × ((key : List ℕ) → contains s.table key ≡ is_present (last_value (calls s.added) key none))
additions_in_order lock_of todo schedule coarse =
    let s = run lock_of schedule (begin todo) in
    let v = run_keeps lock_of coarse schedule (begin todo) (begin-IsLocked lock_of todo) in
    (
      λ i. run-all_calls lock_of schedule (begin todo) i ∙ begin-all_calls todo i,
      λ key. ap (λ t. get_value t key) v.linear ∙ (add_entries-last (calls s.added) key).0,
      λ key. ap (λ t. contains t key) v.linear ∙ (add_entries-last (calls s.added) key).1,
    )

abbrev Call : Type 0
Call = List ℕ × ℕ

same_key :
    (k key : List ℕ) (x value : ℕ)
    → ◌≡◌ {A = Option Call} (some (k, x)) (some (key, value))
    → k ≡ key
same_key k key x value e = cc

pub last_value-present :
    (pairs : List (List ℕ × ℕ)) (key : List ℕ) (before : Option ℕ)
    → is_present before ≡ true
    → is_present (last_value pairs key before) ≡ true
unfolding last_value
last_value-present [] key before h = h
last_value-present ((k, x) ∷ rest) key before h =
    last_value-present rest key _
      (elim (Bool-cases (streq k key)) [ inl e ↦ rw e | inr e ↦ rw e h ])

by_thread-present :
    (i : ℕ) (added : List (ℕ × (List ℕ × ℕ))) (n : ℕ) (key : List ℕ) (value : ℕ) (before : Option ℕ)
    → get_elem? (by_thread i added) n ≡ some (key, value)
    → is_present (last_value (calls added) key before) ≡ true
unfolding by_thread last_value calls
by_thread-present i [] n key value before h = absurd (cc)
by_thread-present i ((j, (k, x)) ∷ added) zero key value before h = elim (Bool-cases (j == i)) [
  | inr e ↦ by_thread-present i added zero key value _ (rw e at h)
  | inl e ↦
      last_value-present (calls added) key _
        (rw (same_key k key x value (rw e at h), streq_refl key))
]
by_thread-present i ((j, (k, x)) ∷ added) (suc n) key value before h = elim (Bool-cases (j == i)) [
  | inr e ↦ by_thread-present i added (suc n) key value _ (rw e at h)
  | inl e ↦ by_thread-present i added n key value _ (rw e at h)
]

-- When a thread has finished its calls, under any schedule of all threads from a new table and with
-- one mutex for the keys of one list, the table contains the key of each of its calls: the count of
-- missing keys that pht/src/pht-tester.c prints is 0 once all threads have finished.
pub finished_contains :
    (lock_of : List ℕ → ℕ) (todo : ℕ → List (List ℕ × ℕ)) (schedule : List ℕ) (i n : ℕ)
    (key : List ℕ) (value : ℕ)
    → IsCoarse lock_of
    → (run lock_of schedule (begin todo)).pc i ≡ idle
    → (run lock_of schedule (begin todo)).todo i ≡ []
    → get_elem? (todo i) n ≡ some (key, value)
    → contains (run lock_of schedule (begin todo)).table key ≡ true
finished_contains lock_of todo schedule i n key value coarse out done call =
    let s = run lock_of schedule (begin todo) in
    let (order, values, present) = additions_in_order lock_of todo schedule coarse in
    present key
    ∙ by_thread-present i s.added n key value none
        (ap (λ l. get_elem? l n) (rw (out, done, append-nil) at (order i)) ∙ call)
