-- ===== src/Pht/Tester/Threaded.antt =====
-- The two parts of main of pht/src/pht-tester.c that run threads.
use kernel_modules.Common.{
  ℕ, zero, suc, ◌*◌, ◌^◌, length, replicate, ◌<◌, ◌≡◌, ◌⊎◌, inl, inr, refl, ap, ◌∙◌, Bool, true,
  false, ◌&&◌, if◌then◌else◌, List, [], ◌∷◌, Option, none, some, arith,
}
use kernel_modules.Pht.Base.{HashTable, contains}
use kernel_modules.Pht.Chain.{ListEntry}
use kernel_modules.Pht.Threads.{
  Pc, idle, searching, updating, inserting, unlocking, Threads, begin, run,
}
use kernel_modules.Pht.Tester.Runs.{nested_calls, created_calls, count_missing}
use kernel_modules.Pht.Base.Destroy.{entries}
use kernel_modules.Pht.Threads.Invariant.{begin-IsLocked}
use kernel_modules.Pht.Threads.Preserve.{run_keeps}
use kernel_modules.Pht.Tester.Strings.{IsStrings, all_calls}
use kernel_modules.Pht.Tester.Missing.{threads_miss_none}
use kernel_modules.Pht.V1.{v1_lock_of, v1_coarse, v1_destroy, v1_destroy_lem, is_held}
use kernel_modules.Pht.V2.{v2_lock_of, v2_coarse, Freed, v2_destroy, v2_destroy_lem}

abbrev is_idle : Pc → Bool
is_idle idle = true
is_idle (searching key value) = false
is_idle (updating key value) = false
is_idle (inserting key value) = false
is_idle (unlocking key) = false

abbrev is_done : List (List ℕ × ℕ) → Bool
is_done [] = true
is_done (call ∷ rest) = false

-- The joins return once the first `count` threads have finished.
unfoldable pub all_joined : ℕ → Threads → Bool
all_joined zero s = true
all_joined (suc count) s = is_idle (s.pc count) && is_done (s.todo count) && all_joined count s

-- How a part of main ends: a key leaves `data`, a thread does not finish under the schedule, or the
-- part finishes.
pub data Part (A : Type 0) : Type 0 where
  out_of_data unfinished : Part A
  finished : A → Part A

-- The part on v1, under a schedule.
unfoldable pub run_v1_part :
    List ℕ → List ℕ → ℕ → ℕ → Part (ℕ × ((HashTable × List ListEntry) × Bool))
unfolding begin run all_joined nested_calls count_missing contains v1_destroy
run_v1_part schedule bytes size threads = elim (nested_calls bytes size threads 0) [
  | none ↦ out_of_data
  | some calls ↦
      let s = run v1_lock_of schedule (begin (created_calls bytes size threads)) in
      if all_joined threads s
      then finished (count_missing (contains s.table) calls, v1_destroy s)
      else unfinished
]

-- The part on v2, which prints the count before the destroy.
unfoldable pub run_v2_part : List ℕ → List ℕ → ℕ → ℕ → Part (ℕ × Option (HashTable × List Freed))
unfolding begin run all_joined nested_calls count_missing contains v2_destroy v2_lock_of
run_v2_part schedule bytes size threads = elim (nested_calls bytes size threads 0) [
  | none ↦ out_of_data
  | some calls ↦
      let s = run v2_lock_of schedule (begin (created_calls bytes size threads)) in
      if all_joined threads s
      then finished (count_missing (contains s.table) calls, v2_destroy s)
      else unfinished
]

idle_pc : (pc : Pc) → is_idle pc ≡ true → pc ≡ idle
idle_pc idle h = refl
idle_pc (searching key value) h = absurd (cc h)
idle_pc (updating key value) h = absurd (cc h)
idle_pc (inserting key value) h = absurd (cc h)
idle_pc (unlocking key) h = absurd (cc h)

done_calls : (todo : List (List ℕ × ℕ)) → is_done todo ≡ true → todo ≡ []
done_calls [] h = refl
done_calls (call ∷ rest) h = absurd (cc h)

all_three : (a b c : Bool) → (a && b && c) ≡ true → (a ≡ true) × (b ≡ true) × (c ≡ true)
all_three true true true h = (refl, refl, refl)
all_three true true false h = absurd (cc h)
all_three true false c h = absurd (cc h)
all_three false b c h = absurd (cc h)

last_or_before : (j count : ℕ) → j < suc count → (j ≡ count) ⊎ (j < count)
last_or_before j count h = ground arith

joined_thread :
    (count j : ℕ) (s : Threads)
    → all_joined count s ≡ true
    → j < count
    → (s.pc j ≡ idle) × (s.todo j ≡ [])
unfolding all_joined
joined_thread zero j s h less = absurd (omega (arith, less))
joined_thread (suc count) j s h less =
    let (out, done, before) =
      all_three (is_idle (s.pc count)) (is_done (s.todo count)) (all_joined count s) h in
    elim (last_or_before j count less) [
      | inl same ↦
          (ap s.pc same ∙ idle_pc (s.pc count) out, ap s.todo same ∙ done_calls (s.todo count) done)
      | inr earlier ↦ joined_thread count j s before earlier
    ]

same_end :
    {A B : Type 0} {a c : A} {b d : B}
    → a ≡ c
    → b ≡ d
    → ◌≡◌ {A = Part (A × B)} (finished (a, b)) (finished (c, d))
same_end h k = rw (h, k)

-- The table of the threads keeps its lists.
v2-table :
    (todo : ℕ → List (List ℕ × ℕ)) (schedule : List ℕ)
    → 0 < length (run v2_lock_of schedule (begin todo)).table
v2-table todo schedule =
    let v = run_keeps v2_lock_of v2_coarse schedule (begin todo) (begin-IsLocked v2_lock_of todo) in
    omega (arith, v.capacity)

-- For an array of threads times size strings, a product below 2 ^ 32, and every schedule under
-- which all the threads that main creates finish their calls, the part of main on v1 and the one on
-- v2 read no key outside of the array and count no missing key; hash_table_v1_destroy then frees
-- each entry of the threads' table once and leaves every list empty, and hash_table_v2_destroy ends
-- in a free of what was not allocated.
pub thread_parts_miss_none :
    (first second : List ℕ) (bytes : List ℕ) (size threads : ℕ)
    → let s = run v1_lock_of first (begin (created_calls bytes size threads)) in
      let t = run v2_lock_of second (begin (created_calls bytes size threads)) in
      threads * size < 2 ^ 32
      → IsStrings (threads * size) bytes
      → all_joined threads s ≡ true
      → all_joined threads t ≡ true
      → (run_v1_part first bytes size threads
          ≡ finished (0, ((replicate (length s.table) [], entries s.table), is_held (s.holder 0))))
        × (run_v2_part second bytes size threads ≡ finished (0, none))
unfolding run_v1_part run_v2_part
thread_parts_miss_none first second bytes size threads fits v done_first done_second =
    let (calls, found) = all_calls bytes size threads fits v in
    let s = run v1_lock_of first (begin (created_calls bytes size threads)) in
    let t = run v2_lock_of second (begin (created_calls bytes size threads)) in
    (
      rw (run_v1_part, found, done_first)
          (same_end
            (threads_miss_none v1_lock_of first bytes size threads v1_coarse calls found
              (λ j less. joined_thread threads j _ done_first less))
            (v1_destroy_lem s)),
      rw (run_v2_part, found, done_second)
          (same_end
            (threads_miss_none v2_lock_of second bytes size threads v2_coarse calls found
              (λ j less. joined_thread threads j _ done_second less))
            (v2_destroy_lem t (v2-table (created_calls bytes size threads) second))),
    )
