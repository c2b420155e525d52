-- ===== src/Pht/Threads/Leak.antt =====
-- A call of add_entry that updates a key returns without pthread_mutex_unlock: what this does to
-- later calls.
use kernel_modules.Common.{
  some-injective, ℕ, ◌≡◌, ◌≢◌, refl, sym, ap, ◌∙◌, List, [], ◌∷◌, none, some, Option-cases, inl,
  inr,
}
use mathlib.Core.Path.{subst}
use kernel_modules.Pht.Chain.{get_list_entry}
use kernel_modules.Pht.Base.{get_list_head}
use kernel_modules.Pht.Threads.{
  Pc, idle, searching, updating, inserting, unlocking, Threads, at, lock, search_entry, update,
  unlock, advance, step, turn, run,
}
use kernel_modules.Pht.Threads.Invariant.{critical, at_same, at_other, same_or_other, IsLocked}

module _ (lock_of : List ℕ → ℕ) (l i : ℕ) where
  -- Thread `i` holds the mutex and no thread is inside a call that would unlock it.
  record IsLeaked (s : Threads) : Type 0 where
    held : s.holder l ≡ some i
    outside : (j : ℕ) (key : List ℕ) → critical (s.pc j) ≡ some key → lock_of key ≢ l

  module _ (s : Threads) (j : ℕ) (v : IsLeaked s) where
    apart : (key : List ℕ) → s.holder (lock_of key) ≡ none → lock_of key ≢ l
    apart key free same = absurd (cc (ap s.holder same, v.held))

    outside_at :
        (p : Pc)
        → ((key : List ℕ) → critical p ≡ some key → lock_of key ≢ l)
        → (k : ℕ) (key : List ℕ) → critical (at j p s.pc k) ≡ some key
        → lock_of key ≢ l
    outside_at p mine k key inside = elim (same_or_other j k) [
      | inl e ↦ mine key (ap critical (sym (ap (at j p s.pc) e ∙ at_same j p s.pc)) ∙ inside)
      | inr other ↦ v.outside k key (ap critical (sym (at_other j p s.pc k other)) ∙ inside)
    ]

    moves :
        (t : Threads) (p : Pc)
        → t.holder ≡ s.holder
        → t.pc ≡ at j p s.pc
        → ((key : List ℕ) → critical p ≡ some key → critical (s.pc j) ≡ some key)
        → IsLeaked t
    moves t p e f from = record {
      held = rw e v.held;
      outside = rw f (outside_at p (λ key inside. v.outside j key (from key inside)));
    }

    lock_keeps :
        (t : Threads) (calls : List (List ℕ × ℕ)) → lock lock_of j s calls ≡ some t → IsLeaked t
    unfolding lock
    lock_keeps t [] e = absurd (cc)
    lock_keeps t ((key, value) ∷ rest) e = elim (Option-cases (s.holder (lock_of key))) [
      | inr (k, held) ↦ absurd (cc (rw (lock, held) at e))
      | inl free ↦ subst IsLeaked (some-injective (rw (lock, free) at e)) (record {
        held =
            at_other (lock_of key) (some j) s.holder l (λ same. apart key free (sym same)) ∙ v.held;
        outside =
            outside_at (searching key value)
              (λ k inside same. apart key free (ap lock_of (some-injective inside) ∙ same));
      })
    ]

    search_keeps :
        (key : List ℕ) (value : ℕ)
        → s.pc j ≡ searching key value
        → IsLeaked (search_entry lock_of j s key value)
    unfolding search_entry
    search_keeps key value stands =
        elim (Option-cases (get_list_entry (get_list_head s.table key) key)) [
          | inr (entry, found) ↦
              rw (search_entry, found)
                (moves _ (updating key value) refl refl (λ k inside. ap critical stands ∙ inside))
          | inl missing ↦
              rw (search_entry, missing)
                (moves _ (inserting key value) refl refl (λ k inside. ap critical stands ∙ inside))
        ]

    unlock_keeps : (key : List ℕ) → s.pc j ≡ unlocking key → IsLeaked (unlock lock_of j s key)
    unfolding unlock
    unlock_keeps key stands = record {
      held =
          at_other (lock_of key) none s.holder l
            (λ same. v.outside j key (ap critical stands) (sym same))
          ∙ v.held;
      outside = outside_at idle (λ k inside. absurd (cc));
    }

    advance_keeps :
        (p : Pc) (t : Threads) → s.pc j ≡ p → advance lock_of j s p ≡ some t → IsLeaked t
    unfolding advance
    advance_keeps idle t stands e = lock_keeps t (s.todo j) e
    advance_keeps (searching k x) t stands e =
        subst IsLeaked (some-injective e) (search_keeps k x stands)
    advance_keeps (updating k x) t stands e =
        subst IsLeaked (some-injective e) (moves _ idle refl refl (λ key inside. absurd (cc)))
    advance_keeps (inserting k x) t stands e =
        subst IsLeaked (some-injective e)
          (moves _ (unlocking k) refl refl (λ key inside. ap critical stands ∙ inside))
    advance_keeps (unlocking k) t stands e =
        subst IsLeaked (some-injective e) (unlock_keeps k stands)

  turn_keeps : (j : ℕ) (s : Threads) → IsLeaked s → IsLeaked (turn lock_of j s)
  unfolding turn step
  turn_keeps j s v = elim (Option-cases (advance lock_of j s (s.pc j))) [
    | inl waits ↦ rw (turn, waits) v
    | inr (t, goes) ↦ rw (turn, goes) (advance_keeps s j v (s.pc j) t refl goes)
  ]

  run_keeps : (schedule : List ℕ) (s : Threads) → IsLeaked s → IsLeaked (run lock_of schedule s)
  unfolding run
  run_keeps [] s v = v
  run_keeps (j ∷ rest) s v = run_keeps rest (turn lock_of j s) (turn_keeps j s v)

held_blocks :
    (lock_of : List ℕ → ℕ) (j i : ℕ) (key : List ℕ) (value : ℕ) (rest : List (List ℕ × ℕ))
    (t : Threads)
    → t.holder (lock_of key) ≡ some i
    → lock lock_of j t ((key, value) ∷ rest) ≡ none
unfolding lock
held_blocks lock_of j i key value rest t held = rw (lock, held)

update_leaks :
    (lock_of : List ℕ → ℕ) (s : Threads) (i : ℕ) (key : List ℕ) (value : ℕ)
    → IsLocked lock_of s
    → s.pc i ≡ updating key value
    → IsLeaked lock_of (lock_of key) i (update lock_of i s key value)
unfolding update
update_leaks lock_of s i key value v stands = record {
  held = v.holds i key (ap critical stands);
  outside = λ j k inside same. elim (same_or_other i j) [
    | inl e ↦ absurd (cc (ap critical (sym (ap (at i idle s.pc) e ∙ at_same i idle s.pc)), inside))
    | inr other ↦ other (
        some-injective (
          sym (v.holds j k (ap critical (sym (at_other i idle s.pc j other)) ∙ inside))
          ∙ ap s.holder same
          ∙ v.holds i key (ap critical stands)))
  ];
}

-- Once a thread has made an update, it holds the mutex of the key for ever: after every schedule of
-- the threads that follows, no thread, itself included, passes the lock of a call whose key has the
-- same mutex.
pub update_blocks :
    (lock_of : List ℕ → ℕ) (s : Threads) (i : ℕ) (key : List ℕ) (value : ℕ)
    → IsLocked lock_of s
    → s.pc i ≡ updating key value
    → (schedule : List ℕ) (j : ℕ) (other : List ℕ) (x : ℕ) (rest : List (List ℕ × ℕ))
    → lock_of other ≡ lock_of key
    → let t = run lock_of schedule (turn lock_of i s) in
      (t.holder (lock_of key) ≡ some i) × (lock lock_of j t ((other, x) ∷ rest) ≡ none)
unfolding turn step
update_blocks lock_of s i key value v stands schedule j other x rest same =
    let t = run lock_of schedule (turn lock_of i s) in
    let after : turn lock_of i s ≡ update lock_of i s key value = rw (turn, stands, advance) in
    let leaked = run_keeps lock_of (lock_of key) i schedule (turn lock_of i s) (
      subst (IsLeaked lock_of (lock_of key) i) (sym after)
        (update_leaks lock_of s i key value v stands)) in
    (leaked.held, held_blocks lock_of j i other x rest t (ap t.holder same ∙ leaked.held))
