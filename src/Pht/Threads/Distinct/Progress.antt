-- ===== src/Pht/Threads/Distinct/Progress.antt =====
-- Threads whose calls have pairwise different keys never wait for ever.
use kernel_modules.Common.{
  ℕ, ◌≡◌, refl, ap, ◌∙◌, List, [], ◌∷◌, none, some, Option-cases, inl, inr, ◌⊎◌,
}
use kernel_modules.Pht.Threads.{
  Pc, idle, searching, updating, inserting, unlocking, Threads, at, begin, lock, advance, step,
  turn, run,
}
use kernel_modules.Pht.Threads.Invariant.{critical, IsLocked, begin-IsLocked}
use kernel_modules.Pht.Threads.Preserve.{turn_keeps}
use kernel_modules.Pht.Threads.Order.{all_calls, turn-all_calls}
use kernel_modules.Pht.Threads.Outcome.{IsCoarse, begin-all_calls}
use kernel_modules.Pht.Threads.Distinct.{Call, IsDistinct, no_update}
use kernel_modules.Pht.Threads.Distinct.Held.{IsHeld, advance-IsHeld}

module _ (lock_of : List ℕ → ℕ) (s : Threads) where
  -- A thread inside a call never waits.
  inside_goes :
      (j : ℕ) (key : List ℕ) (p : Pc)
      → critical p ≡ some key
      → (t : Threads) × (advance lock_of j s p ≡ some t)
  unfolding advance
  inside_goes j key idle e = absurd (cc)
  inside_goes j key (searching k x) e = (_, refl)
  inside_goes j key (updating k x) e = (_, refl)
  inside_goes j key (inserting k x) e = (_, refl)
  inside_goes j key (unlocking k) e = (_, refl)

  lock_goes :
      (i : ℕ) (key : List ℕ) (value : ℕ) (rest : List Call)
      → s.holder (lock_of key) ≡ none
      → (t : Threads) × (lock lock_of i s ((key, value) ∷ rest) ≡ some t)
  unfolding lock
  lock_goes i key value rest free = (
    record s {
      holder = at (lock_of key) (some i) s.holder;
      pc = at i (searching key value) s.pc;
      todo = at i rest s.todo;
    },
    rw (lock, free),
  )

  abbrev Goes : Type 0
  Goes = (j : ℕ) × (t : Threads) × (step lock_of j s ≡ some t)

  abbrev IsFinished : ℕ → Type 0
  IsFinished i = (s.pc i ≡ idle) × (s.todo i ≡ [])

  module _ (v : IsHeld lock_of s.holder s.pc) (i : ℕ) where
    idle_goes : (todo : List Call) → s.pc i ≡ idle → s.todo i ≡ todo → IsFinished i ⊎ Goes
    unfolding step advance lock
    idle_goes [] stands calls = inl (stands, calls)
    idle_goes ((key, value) ∷ rest) stands calls = elim (Option-cases (s.holder (lock_of key))) [
      | inl free ↦
          let (t, goes) = lock_goes i key value rest free in
          inr (i, t, rw (step, stands, advance, calls) goes)
      | inr (j, held) ↦
          let (k, inside, mutex) = v (lock_of key) j held in
          let (t, goes) = inside_goes j k (s.pc j) inside in inr (j, t, goes)
    ]

    goes_on : (p : Pc) → s.pc i ≡ p → IsFinished i ⊎ Goes
    unfolding step
    goes_on idle stands = idle_goes (s.todo i) stands refl
    goes_on (searching k x) stands =
        let (t, goes) = inside_goes i k (s.pc i) (ap critical stands) in inr (i, t, goes)
    goes_on (updating k x) stands =
        let (t, goes) = inside_goes i k (s.pc i) (ap critical stands) in inr (i, t, goes)
    goes_on (inserting k x) stands =
        let (t, goes) = inside_goes i k (s.pc i) (ap critical stands) in inr (i, t, goes)
    goes_on (unlocking k) stands =
        let (t, goes) = inside_goes i k (s.pc i) (ap critical stands) in inr (i, t, goes)

module _ (lock_of : List ℕ → ℕ) (coarse : IsCoarse lock_of) (todo : ℕ → List Call)
    (distinct : IsDistinct todo) where
  turn-IsHeld :
      (i : ℕ) (s : Threads)
      → IsLocked lock_of s
      → ((j : ℕ) → all_calls s j ≡ todo j)
      → IsHeld lock_of s.holder s.pc
      → IsHeld lock_of (turn lock_of i s).holder (turn lock_of i s).pc
  unfolding turn step
  turn-IsHeld i s v order held = elim (Option-cases (advance lock_of i s (s.pc i))) [
    | inl waits ↦ rw (turn, waits) held
    | inr (t, goes) ↦
        rw (turn, goes)
          (advance-IsHeld lock_of s i held (s.pc i) t refl
            (no_update lock_of todo distinct s v order i) goes)
  ]

  run-IsHeld :
      (schedule : List ℕ) (s : Threads)
      → IsLocked lock_of s
      → ((j : ℕ) → all_calls s j ≡ todo j)
      → IsHeld lock_of s.holder s.pc
      → IsHeld lock_of (run lock_of schedule s).holder (run lock_of schedule s).pc
  unfolding run
  run-IsHeld [] s v order held = held
  run-IsHeld (i ∷ rest) s v order held =
      run-IsHeld rest (turn lock_of i s) (turn_keeps lock_of coarse i s v)
        (λ j. turn-all_calls lock_of i s j ∙ order j) (turn-IsHeld i s v order held)

  begin-IsHeld : IsHeld lock_of (begin todo).holder (begin todo).pc
  unfolding begin
  begin-IsHeld l j e = absurd (cc)

-- Threads whose calls have pairwise different keys do not deadlock: after every schedule from a new
-- table, a thread has finished its calls or some thread can make a step.
pub distinct_goes_on :
    (lock_of : List ℕ → ℕ) (todo : ℕ → List (List ℕ × ℕ)) (schedule : List ℕ) (i : ℕ)
    → IsCoarse lock_of
    → IsDistinct todo
    → let s = run lock_of schedule (begin todo) in
      ((s.pc i ≡ idle) × (s.todo i ≡ [])) ⊎ ((j : ℕ) × (t : Threads) × (step lock_of j s ≡ some t))
distinct_goes_on lock_of todo schedule i coarse distinct =
    let s = run lock_of schedule (begin todo) in
    goes_on lock_of s
      (run-IsHeld lock_of coarse todo distinct schedule (begin todo) (begin-IsLocked lock_of todo)
        (begin-all_calls todo) (begin-IsHeld lock_of coarse todo distinct))
      i (s.pc i) refl
