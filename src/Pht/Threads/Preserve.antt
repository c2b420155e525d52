-- ===== src/Pht/Threads/Preserve.antt =====
-- Each step of a thread keeps the invariant of the locked tables.
use kernel_modules.Common.{
  some-injective, ℕ, ◌≡◌, ◌≢◌, refl, sym, ap, ◌∙◌, List, [], ◌∷◌, ◌++◌, none, some, set, length-set,
  Option-cases, inl, inr,
}
use mathlib.Core.Path.{subst}
use kernel_modules.Pht.Chain.{ListEntry, ListHead, get_list_entry, set_value}
use kernel_modules.Pht.Base.{
  HashTable, create, bucket, get_list_head, add_to_list, add_entry, add_entries,
}
use kernel_modules.Pht.Threads.{
  Pc, idle, searching, updating, inserting, unlocking, Threads, at, lock, search_entry, update,
  insert, unlock, advance, step, turn, run,
}
use kernel_modules.Pht.Threads.Invariant.{
  calls, critical, Agrees, Agrees-set, add_entries-append, at_same, at_other, same_or_other,
  IsLocked,
}
use kernel_modules.Pht.Threads.Holds.{Holds-inside, Holds-idle, Holds-lock, Holds-unlock}

module _ (chain : ListHead) (key : List ℕ) (value : ℕ) where
  add_found :
      (entry : ListEntry)
      → get_list_entry chain key ≡ some entry
      → add_to_list chain key value ≡ set_value chain key value
  unfolding add_to_list
  add_found entry found = rw (add_to_list, found)

  add_missing :
      get_list_entry chain key ≡ none
      → add_to_list chain key value ≡ record { key = key; value = value } ∷ chain
  unfolding add_to_list
  add_missing missing = rw (add_to_list, missing)

module _ (lock_of : List ℕ → ℕ) where
  module _ (coarse : (a b : List ℕ) → bucket a ≡ bucket b → lock_of a ≡ lock_of b) (s : Threads)
      (i : ℕ) (v : IsLocked lock_of s) where
    Agrees-at :
        (table : HashTable) (p : Pc)
        → Agrees table p
        → ((j : ℕ) → j ≢ i → Agrees table (s.pc j))
        → (j : ℕ) → Agrees table (at i p s.pc j)
    Agrees-at table p mine others j = elim (same_or_other i j) [
      | inl e ↦ subst (Agrees table) (sym (ap (at i p s.pc) e ∙ at_same i p s.pc)) mine
      | inr other ↦ subst (Agrees table) (sym (at_other i p s.pc j other)) (others j other)
    ]

    Agrees-write :
        (key : List ℕ) (chain : ListHead)
        → critical (s.pc i) ≡ some key
        → (j : ℕ) → j ≢ i
        → Agrees (set s.table (bucket key) chain) (s.pc j)
    Agrees-write key chain mine j other =
        Agrees-set s.table key chain (s.pc j)
          (λ k inside same. other (
            some-injective
              (sym (v.holds j k inside) ∙ ap s.holder (coarse k key same) ∙ v.holds i key mine)))
          (v.agrees j)

    linear_write :
        (key : List ℕ) (value : ℕ) (chain : ListHead)
        → add_to_list (get_list_head s.table key) key value ≡ chain
        → set s.table (bucket key) chain
          ≡ add_entries create (calls (s.added ++ ((i, (key, value)) ∷ [])))
    unfolding add_entry
    linear_write key value chain made =
        ap (set s.table (bucket key)) (sym made)
        ∙ ap (λ t. add_entry t key value) v.linear
        ∙ sym (add_entries-append create s.added i key value)

    lock_keeps :
        (calls : List (List ℕ × ℕ)) (t : Threads)
        → lock lock_of i s calls ≡ some t
        → IsLocked lock_of t
    unfolding lock
    lock_keeps [] t e = absurd (cc)
    lock_keeps ((key, value) ∷ rest) t e = elim (Option-cases (s.holder (lock_of key))) [
      | inr (j, held) ↦ absurd (cc (rw (lock, held) at e))
      | inl free ↦
          subst (λ o. IsLocked lock_of o) (some-injective (rw (lock, free) at e))
            (record {
              holds = Holds-lock lock_of s.holder s.pc i v.holds key value free;
              agrees = Agrees-at s.table (searching key value) tt (λ j other. v.agrees j);
              capacity = v.capacity;
              linear = v.linear;
            })
    ]

    moved :
        (p : Pc)
        → critical p ≡ critical (s.pc i)
        → Agrees s.table p
        → IsLocked lock_of (record s { pc = at i p s.pc })
    moved p same mine = record {
      holds = Holds-inside lock_of s.holder s.pc i v.holds p same;
      agrees = Agrees-at s.table p mine (λ j other. v.agrees j);
      capacity = v.capacity;
      linear = v.linear;
    }

    search_keeps :
        (key : List ℕ) (value : ℕ)
        → s.pc i ≡ searching key value
        → IsLocked lock_of (search_entry lock_of i s key value)
    unfolding search_entry
    search_keeps key value stands =
        elim (Option-cases (get_list_entry (get_list_head s.table key) key)) [
          | inr (entry, found) ↦
              rw (search_entry, found)
                (moved (updating key value) (ap critical (sym stands)) (entry, found))
          | inl missing ↦
              rw (search_entry, missing)
                (moved (inserting key value) (ap critical (sym stands)) missing)
        ]

    update_keeps :
        (key : List ℕ) (value : ℕ)
        → s.pc i ≡ updating key value
        → IsLocked lock_of (update lock_of i s key value)
    unfolding update
    update_keeps key value stands = record {
      holds = Holds-idle lock_of s.holder s.pc i v.holds;
      agrees = Agrees-at _ idle tt (Agrees-write key _ (ap critical stands));
      capacity = length-set s.table (bucket key) _ ∙ v.capacity;
      linear = linear_write key value _ (
          let (entry, found) = subst (Agrees s.table) stands (v.agrees i) in
          add_found _ key value entry found);
    }

    insert_keeps :
        (key : List ℕ) (value : ℕ)
        → s.pc i ≡ inserting key value
        → IsLocked lock_of (insert lock_of i s key value)
    unfolding insert
    insert_keeps key value stands = record {
      holds =
          Holds-inside lock_of s.holder s.pc i v.holds (unlocking key) (sym (ap critical stands));
      agrees = Agrees-at _ (unlocking key) tt (Agrees-write key _ (ap critical stands));
      capacity = length-set s.table (bucket key) _ ∙ v.capacity;
      linear =
          linear_write key value _
            (add_missing _ key value (subst (Agrees s.table) stands (v.agrees i)));
    }

    unlock_keeps :
        (key : List ℕ) → s.pc i ≡ unlocking key → IsLocked lock_of (unlock lock_of i s key)
    unfolding unlock
    unlock_keeps key stands = record {
      holds = Holds-unlock lock_of s.holder s.pc i v.holds key (ap critical stands);
      agrees = Agrees-at s.table idle tt (λ j other. v.agrees j);
      capacity = v.capacity;
      linear = v.linear;
    }

    advance_keeps :
        (p : Pc) (t : Threads) → s.pc i ≡ p → advance lock_of i s p ≡ some t → IsLocked lock_of t
    unfolding advance
    advance_keeps idle t stands e = lock_keeps (s.todo i) t e
    advance_keeps (searching k x) t stands e =
        subst (IsLocked lock_of) (some-injective e) (search_keeps k x stands)
    advance_keeps (updating k x) t stands e =
        subst (IsLocked lock_of) (some-injective e) (update_keeps k x stands)
    advance_keeps (inserting k x) t stands e =
        subst (IsLocked lock_of) (some-injective e) (insert_keeps k x stands)
    advance_keeps (unlocking k) t stands e =
        subst (IsLocked lock_of) (some-injective e) (unlock_keeps k stands)

  module _ (coarse : (a b : List ℕ) → bucket a ≡ bucket b → lock_of a ≡ lock_of b) where
    pub turn_keeps :
        (i : ℕ) (s : Threads) → IsLocked lock_of s → IsLocked lock_of (turn lock_of i s)
    unfolding turn step
    turn_keeps i s v = elim (Option-cases (advance lock_of i s (s.pc i))) [
      | inl waits ↦ rw (turn, waits) v
      | inr (t, goes) ↦ rw (turn, goes) (advance_keeps coarse s i v (s.pc i) t refl goes)
    ]

    pub run_keeps :
        (schedule : List ℕ) (s : Threads)
        → IsLocked lock_of s
        → IsLocked lock_of (run lock_of schedule s)
    unfolding run
    run_keeps [] s v = v
    run_keeps (i ∷ rest) s v = run_keeps rest (turn lock_of i s) (turn_keeps i s v)
