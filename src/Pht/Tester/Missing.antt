-- ===== src/Pht/Tester/Missing.antt =====
-- The tester of pht/src/pht-tester.c finds no key missing, in the base table and in those of threads.
use kernel_modules.Common.{
  ℕ, zero, suc, ◌+◌, ◌*◌, ◌^◌, ◌<◌, ◌≡◌, refl, ap, ◌∙◌, inl, inr, Bool-cases, Bool, true,
  if◌then◌else◌, lt→ltb, List, [], ◌∷◌, ◌++◌, some, none, Option, length, replicate, get_elem?,
  some-injective, arith,
}
use kernel_modules.Pht.Text.{streq_refl, streq}
use kernel_modules.Pht.Base.{create, contains, add_entries}
use kernel_modules.Pht.Base.Spec.{is_present, last_value, add_entries-last}
use kernel_modules.Pht.Base.Destroy.{entries, destroy_all}
use kernel_modules.Pht.Threads.{idle, begin, run}
use kernel_modules.Pht.Threads.Outcome.{IsCoarse, last_value-present, finished_contains}
use mathlib.Core.Path.{subst}
use kernel_modules.Pht.Tester.Generated.{generated}
use kernel_modules.Pht.Tester.Strings.{IsStrings, all_calls}
use kernel_modules.Pht.Tester.Runs.{
  ◌>>=◌, or_empty, run_calls, nested_calls, created_calls, count_missing, generate_data, run_base,
}

all_found :
    (f : List ℕ → Bool) (calls : List (List ℕ × ℕ))
    → ((n : ℕ) (key : List ℕ) (value : ℕ) → get_elem? calls n ≡ some (key, value) → f key ≡ true)
    → count_missing f calls ≡ 0
unfolding count_missing
all_found f [] found = refl
all_found f ((key, value) ∷ rest) found =
    rw (found 0 key value refl) (all_found f rest (λ n k v h. found (suc n) k v h))

count_missing-append :
    (f : List ℕ → Bool) (xs ys : List (List ℕ × ℕ))
    → count_missing f xs ≡ 0
    → count_missing f ys ≡ 0
    → count_missing f (xs ++ ys) ≡ 0
unfolding count_missing
count_missing-append f [] ys none_x none_y = none_y
count_missing-append f ((key, value) ∷ xs) ys none_x none_y = elim (Bool-cases (f key)) [
  | inl found ↦ rw found (count_missing-append f xs ys (rw found at none_x) none_y)
  | inr missing ↦ absurd (omega (arith, (rw missing at none_x)))
]

pair-present :
    (pairs : List (List ℕ × ℕ)) (n : ℕ) (key : List ℕ) (value : ℕ) (before : Option ℕ)
    → get_elem? pairs n ≡ some (key, value)
    → is_present (last_value pairs key before) ≡ true
unfolding last_value
pair-present [] n key value before h = absurd (cc h)
pair-present ((k, v) ∷ pairs) zero key value before h = last_value-present pairs key _ (
    ap (λ (a : List ℕ). is_present (if streq a key then some v else before)) same
    ∙ rw (streq_refl key) refl)
  where
    same : k ≡ key
    same = ap (λ p. p.0) (some-injective h)
pair-present ((k, v) ∷ pairs) (suc n) key value before h = pair-present pairs n key value _ h

base_of_strings :
    (bytes : List ℕ) (size threads : ℕ)
    → threads * size < 2 ^ 32
    → IsStrings (threads * size) bytes
    → (calls : List (List ℕ × ℕ)) × (nested_calls bytes size threads 0 ≡ some calls)
      × (run_base bytes size threads
          ≡ some (
            0,
            (replicate (length (add_entries create calls)) [], entries (add_entries create calls)),
          ))
unfolding run_base
base_of_strings bytes size threads fits v =
    let (calls, found) = all_calls bytes size threads fits v in
    (
      calls,
      found,
      rw
          (
            found,
            ◌>>=◌,
            destroy_all (add_entries create calls),
            all_found (contains (add_entries create calls)) calls (λ n key value h.
                (add_entries-last calls key).1 ∙ pair-present calls n key value none h),
          )
          refl,
    )

-- For every rand, and for a size and a number of threads whose product is below 2 ^ 32, the
-- generation writes only inside of data, the part of main on the base table then reads no key
-- outside of data and counts no missing key, and its destroy frees each entry of the table once,
-- list by list, and leaves every list empty.
pub base_misses_none :
    {W : Type 0} (rand : W → ℕ × W) (size threads : ℕ) (w : W)
    → threads * size < 2 ^ 32
    → (bytes : List ℕ) × (later : W) × (generate_data rand size threads w ≡ some (bytes, later))
      × (calls : List (List ℕ × ℕ)) × (nested_calls bytes size threads 0 ≡ some calls)
      × (run_base bytes size threads
          ≡ some (
            0,
            (replicate (length (add_entries create calls)) [], entries (add_entries create calls)),
          ))
base_misses_none rand size threads w fits =
    let (bytes, later, runs, v) = generated rand size threads fits w in
    let (calls, found, result) = base_of_strings bytes size threads fits v in
    (bytes, later, runs, calls, found, result)

-- A chain of two that gives a result.
bind_some :
    {A B : Type 0} (o : Option A) (f : A → Option B) (b : B)
    → (o >>= f) ≡ some b
    → (a : A) × (o ≡ some a) × (f a ≡ some b)
bind_some none f b h = absurd (cc h)
bind_some (some a) f b h = (a, refl, h)

module _ (lock_of : List ℕ → ℕ) (schedule : List ℕ) (bytes : List ℕ) (size threads : ℕ)
    (coarse : IsCoarse lock_of) where
  abbrev has_key : List ℕ → Bool
  has_key = contains (run lock_of schedule (begin (created_calls bytes size threads))).table

  joined_from :
      (count i : ℕ) (calls : List (List ℕ × ℕ))
      → i + count ≡ threads
      → nested_calls bytes size count i ≡ some calls
      → ((j : ℕ)
          → j < threads
          → ((run lock_of schedule (begin (created_calls bytes size threads))).pc j ≡ idle)
            × ((run lock_of schedule (begin (created_calls bytes size threads))).todo j ≡ []))
      → count_missing
          (contains (run lock_of schedule (begin (created_calls bytes size threads))).table)
          calls
        ≡ 0
  unfolding nested_calls count_missing
  joined_from zero i calls h found joined =
      subst (λ l. count_missing has_key l ≡ 0) (some-injective found) refl
  joined_from (suc count) i calls h found joined =
      let below : i < threads = omega (arith, h) in
      let (mine, run_found, rest_found) = bind_some (run_calls bytes size i) _ calls found in
      let (others, nested_found, joins) =
        bind_some (nested_calls bytes size count (i + 1)) _ calls rest_found in
      subst (λ l. count_missing has_key l ≡ 0) (some-injective joins)
        (count_missing-append has_key mine others
          (all_found has_key mine (λ n key value call.
            finished_contains lock_of (created_calls bytes size threads) schedule i n key value
              coarse (joined i below).0 (joined i below).1
              (ap (λ (b : Bool). get_elem? (if b then or_empty (run_calls bytes size i) else []) n)
                  (lt→ltb i threads below)
                ∙ ap (λ o. get_elem? (or_empty o) n) run_found
                ∙ call)))
          (joined_from count (i + 1) others (omega (arith, h)) nested_found joined))

  pub threads_miss_none :
      (calls : List (List ℕ × ℕ))
      → nested_calls bytes size threads 0 ≡ some calls
      → ((j : ℕ)
          → j < threads
          → ((run lock_of schedule (begin (created_calls bytes size threads))).pc j ≡ idle)
            × ((run lock_of schedule (begin (created_calls bytes size threads))).todo j ≡ []))
      → count_missing
          (contains (run lock_of schedule (begin (created_calls bytes size threads))).table)
          calls
        ≡ 0
  threads_miss_none calls found joined = joined_from threads 0 calls (omega arith) found joined
