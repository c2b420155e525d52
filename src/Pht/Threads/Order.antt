-- ===== src/Pht/Threads/Order.antt =====
-- The additions of one thread take effect in the order of its calls, each once.
use kernel_modules.Common.{
  some-injective, ℕ, ◌≡◌, ◌≢◌, refl, sym, ◌∙◌, true, false, if◌then◌else◌, List, [], ◌∷◌, ◌++◌,
  some, ◌==◌, arith, Bool-cases, Option-cases, inl, inr,
}
use mathlib.Core.Path.{subst}
use mathlib.Core.List.{append_assoc}
use kernel_modules.Pht.Chain.{get_list_entry}
use kernel_modules.Pht.Base.{get_list_head}
use kernel_modules.Pht.Threads.{
  Pc, idle, searching, updating, inserting, unlocking, Threads, at, lock, search_entry, advance,
  step, turn, run,
}
use kernel_modules.Pht.Threads.Invariant.{at_same, at_other, same_or_other}

-- The additions of thread `i`, in order.
unfoldable pub by_thread : ℕ → List (ℕ × (List ℕ × ℕ)) → List (List ℕ × ℕ)
by_thread i [] = []
by_thread i ((j, pair) ∷ rest) =
    let later = by_thread i rest in if j == i then pair ∷ later else later

-- The call that a thread is inside of and that has not taken effect yet.
abbrev pub pending : Pc → List (List ℕ × ℕ)
pending idle = []
pending (searching key value) = (key, value) ∷ []
pending (updating key value) = (key, value) ∷ []
pending (inserting key value) = (key, value) ∷ []
pending (unlocking key) = []

-- All calls of thread `i`: those done, the pending one, those to come.
abbrev pub all_calls : Threads → ℕ → List (List ℕ × ℕ)
all_calls s i = by_thread i s.added ++ (pending (s.pc i) ++ s.todo i)

differs : (i j : ℕ) → j ≢ i → (i == j) ≡ false
differs i j other = ground arith

agrees : (i : ℕ) → (i == i) ≡ true
agrees i = ground arith

by_thread-other :
    (i j : ℕ) (added : List (ℕ × (List ℕ × ℕ))) (pair : List ℕ × ℕ)
    → j ≢ i
    → by_thread j (added ++ ((i, pair) ∷ [])) ≡ by_thread j added
unfolding by_thread
by_thread-other i j [] pair other = rw (differs i j other)
by_thread-other i j ((k, p) ∷ added) pair other = rw (by_thread-other i j added pair other)

by_thread-same :
    (i : ℕ) (added : List (ℕ × (List ℕ × ℕ))) (pair : List ℕ × ℕ)
    → by_thread i (added ++ ((i, pair) ∷ [])) ≡ by_thread i added ++ (pair ∷ [])
unfolding by_thread
by_thread-same i [] pair = rw (agrees i)
by_thread-same i ((k, p) ∷ added) pair = elim (Bool-cases (k == i)) [
  | inl e ↦ rw (e, by_thread-same i added pair)
  | inr e ↦ rw (e, by_thread-same i added pair)
]

module _ (i : ℕ) (s : Threads) where
  -- What a step of thread `i` has to keep.
  record Keeps (t : Threads) : Type 0 where
    mine : all_calls t i ≡ all_calls s i
    added_same : (j : ℕ) → j ≢ i → by_thread j t.added ≡ by_thread j s.added
    pc_same : (j : ℕ) → j ≢ i → t.pc j ≡ s.pc j
    todo_same : (j : ℕ) → j ≢ i → t.todo j ≡ s.todo j

  Keeps-all : (t : Threads) → Keeps t → (j : ℕ) → all_calls t j ≡ all_calls s j
  Keeps-all t k j = elim (same_or_other i j) [
    | inl e ↦ subst (λ x. all_calls t x ≡ all_calls s x) (sym e) k.mine
    | inr other ↦ rw (k.added_same j other, k.pc_same j other, k.todo_same j other)
  ]

  -- A step inside a call.
  quiet :
      (t : Threads) (p : Pc)
      → t.added ≡ s.added
      → t.todo ≡ s.todo
      → t.pc ≡ at i p s.pc
      → pending p ≡ pending (s.pc i)
      → Keeps t
  quiet t p e f g same = record {
    mine = rw (e, f, g, at_same i p s.pc, same);
    added_same = λ j other. rw e;
    pc_same = λ j other. rw g (at_other i p s.pc j other);
    todo_same = λ j other. rw f;
  }

  -- The addition itself.
  adds :
      (t : Threads) (p : Pc) (pair : List ℕ × ℕ)
      → t.added ≡ s.added ++ ((i, pair) ∷ [])
      → t.todo ≡ s.todo
      → t.pc ≡ at i p s.pc
      → pending p ≡ []
      → pending (s.pc i) ≡ pair ∷ []
      → Keeps t
  adds t p pair e f g last first = record {
    mine = rw (e, f, g, at_same i p s.pc, last, first, by_thread-same i s.added pair, append_assoc);
    added_same = λ j other. rw e (by_thread-other i j s.added pair other);
    pc_same = λ j other. rw g (at_other i p s.pc j other);
    todo_same = λ j other. rw f;
  }

  module _ (lock_of : List ℕ → ℕ) where
    lock-Keeps :
        (t : Threads) (todo : List (List ℕ × ℕ))
        → s.pc i ≡ idle
        → s.todo i ≡ todo
        → lock lock_of i s todo ≡ some t
        → Keeps t
    unfolding lock
    lock-Keeps t [] stands calls e = absurd (cc)
    lock-Keeps t ((key, value) ∷ rest) stands calls e =
        elim (Option-cases (s.holder (lock_of key))) [
          | inr (j, held) ↦ absurd (cc (rw (lock, held) at e))
          | inl free ↦ subst Keeps (some-injective (rw (lock, free) at e)) (record {
            mine = rw (at_same i (searching key value) s.pc, at_same i rest s.todo, stands, calls);
            added_same = λ j other. refl;
            pc_same = at_other i (searching key value) s.pc;
            todo_same = at_other i rest s.todo;
          })
        ]

    search-Keeps :
        (key : List ℕ) (value : ℕ)
        → s.pc i ≡ searching key value
        → Keeps (search_entry lock_of i s key value)
    unfolding search_entry
    search-Keeps key value stands =
        elim (Option-cases (get_list_entry (get_list_head s.table key) key)) [
          | inr (entry, found) ↦
              rw (search_entry, found) (quiet _ (updating key value) refl refl refl (rw stands))
          | inl missing ↦
              rw (search_entry, missing) (quiet _ (inserting key value) refl refl refl (rw stands))
        ]

    advance-Keeps : (p : Pc) (t : Threads) → s.pc i ≡ p → advance lock_of i s p ≡ some t → Keeps t
    unfolding advance
    advance-Keeps idle t stands e = lock-Keeps t (s.todo i) stands refl e
    advance-Keeps (searching k x) t stands e =
        subst Keeps (some-injective e) (search-Keeps k x stands)
    advance-Keeps (updating k x) t stands e =
        subst Keeps (some-injective e) (adds _ idle (k, x) refl refl refl refl (rw stands))
    advance-Keeps (inserting k x) t stands e =
        subst Keeps (some-injective e) (adds _ (unlocking k) (k, x) refl refl refl refl (rw stands))
    advance-Keeps (unlocking k) t stands e =
        subst Keeps (some-injective e) (quiet _ idle refl refl refl (rw stands))

module _ (lock_of : List ℕ → ℕ) where
  pub turn-all_calls :
      (i : ℕ) (s : Threads) (j : ℕ) → all_calls (turn lock_of i s) j ≡ all_calls s j
  unfolding turn step
  turn-all_calls i s j = elim (Option-cases (advance lock_of i s (s.pc i))) [
    | inl waits ↦ rw (turn, waits)
    | inr (t, goes) ↦
        rw (turn, goes) (Keeps-all i s t (advance-Keeps i s lock_of (s.pc i) t refl goes) j)
  ]

  pub run-all_calls :
      (schedule : List ℕ) (s : Threads) (j : ℕ)
      → all_calls (run lock_of schedule s) j ≡ all_calls s j
  unfolding run
  run-all_calls [] s j = refl
  run-all_calls (i ∷ rest) s j = run-all_calls rest (turn lock_of i s) j ∙ turn-all_calls i s j
