-- ===== src/Pht/Threads/Distinct/Held.antt =====
-- As long as no thread updates, a mutex is held only by a thread inside a call.
use kernel_modules.Common.{
  some-injective, ℕ, ◌≡◌, ◌≢◌, refl, sym, ap, ◌∙◌, List, [], ◌∷◌, Option, none, some, Option-cases,
  inl, inr,
}
use mathlib.Core.Path.{subst}
use kernel_modules.Pht.Chain.{get_list_entry}
use kernel_modules.Pht.Base.{get_list_head}
use kernel_modules.Pht.Threads.{
  Pc, idle, searching, updating, inserting, unlocking, Threads, at, lock, search_entry, insert,
  unlock, advance,
}
use kernel_modules.Pht.Threads.Invariant.{critical, at_same, at_other, same_or_other}
use kernel_modules.Pht.Threads.Distinct.{Call}

-- Whoever holds a mutex is inside a call that has it.
abbrev pub IsHeld : (List ℕ → ℕ) → (ℕ → Option ℕ) → (ℕ → Pc) → Type 0
IsHeld lock_of holder pc =
    (l j : ℕ)
    → holder l ≡ some j
    → (key : List ℕ) × (critical (pc j) ≡ some key) × (lock_of key ≡ l)

module _ (lock_of : List ℕ → ℕ) (s : Threads) (i : ℕ) (v : IsHeld lock_of s.holder s.pc) where
  at_here : (p : Pc) (j : ℕ) → j ≡ i → critical (at i p s.pc j) ≡ critical p
  at_here p j e = ap critical (ap (at i p s.pc) e ∙ at_same i p s.pc)

  at_there : (p : Pc) (j : ℕ) → j ≢ i → critical (at i p s.pc j) ≡ critical (s.pc j)
  at_there p j other = ap critical (at_other i p s.pc j other)

  IsHeld-inside : (p : Pc) → critical p ≡ critical (s.pc i) → IsHeld lock_of s.holder (at i p s.pc)
  IsHeld-inside p same l j held =
      let (key, inside, mutex) = v l j held in
      (
        key,
        elim (same_or_other i j) [
          | inl e ↦ at_here p j e ∙ same ∙ ap (λ x. critical (s.pc x)) (sym e) ∙ inside
          | inr other ↦ at_there p j other ∙ inside
        ],
        mutex,
      )

  IsHeld-lock :
      (key : List ℕ) (value : ℕ)
      → s.pc i ≡ idle
      → IsHeld lock_of (at (lock_of key) (some i) s.holder) (at i (searching key value) s.pc)
  IsHeld-lock key value stands l j held = elim (same_or_other (lock_of key) l) [
    | inl e ↦
        let me : j ≡ i = some-injective (
          sym held
          ∙ ap (at (lock_of key) (some i) s.holder) e
          ∙ at_same (lock_of key) (some i) s.holder) in
        (key, at_here (searching key value) j me, sym e)
    | inr other ↦
        let (k, inside, mutex) =
          v l j (sym (at_other (lock_of key) (some i) s.holder l other) ∙ held) in
        (
          k,
          elim (same_or_other i j) [
            | inl e ↦ absurd (cc (sym inside ∙ ap (λ x. critical (s.pc x)) e ∙ ap critical stands))
            | inr apart ↦ at_there (searching key value) j apart ∙ inside
          ],
          mutex,
        )
  ]

  IsHeld-unlock :
      (key : List ℕ)
      → s.pc i ≡ unlocking key
      → IsHeld lock_of (at (lock_of key) none s.holder) (at i idle s.pc)
  IsHeld-unlock key stands l j held = elim (same_or_other (lock_of key) l) [
    | inl e ↦ absurd (
        cc (sym held ∙ ap (at (lock_of key) none s.holder) e ∙ at_same (lock_of key) none s.holder))
    | inr other ↦
        let (k, inside, mutex) =
          v l j (sym (at_other (lock_of key) none s.holder l other) ∙ held) in
        (
          k,
          elim (same_or_other i j) [
            | inl e ↦ absurd (
                other (
                  sym mutex
                  ∙ ap lock_of (
                      some-injective
                        (sym inside ∙ ap (λ x. critical (s.pc x)) e ∙ ap critical stands))))
            | inr apart ↦ at_there idle j apart ∙ inside
          ],
          mutex,
        )
  ]

  lock-IsHeld :
      (calls : List Call) (t : Threads)
      → s.pc i ≡ idle
      → lock lock_of i s calls ≡ some t
      → IsHeld lock_of t.holder t.pc
  unfolding lock
  lock-IsHeld [] t stands e = absurd (cc)
  lock-IsHeld ((key, value) ∷ rest) t stands e = elim (Option-cases (s.holder (lock_of key))) [
    | inr (j, held) ↦ absurd (cc (rw (lock, held) at e))
    | inl free ↦
        subst (λ o. IsHeld lock_of o.holder o.pc) (some-injective (rw (lock, free) at e))
          (IsHeld-lock key value stands)
  ]

  search-IsHeld :
      (key : List ℕ) (value : ℕ)
      → s.pc i ≡ searching key value
      → IsHeld lock_of
          (search_entry lock_of i s key value).holder
          (search_entry lock_of i s key value).pc
  unfolding search_entry
  search-IsHeld key value stands =
      elim (Option-cases (get_list_entry (get_list_head s.table key) key)) [
        | inr (entry, found) ↦
            rw (search_entry, found) (IsHeld-inside (updating key value) (sym (ap critical stands)))
        | inl missing ↦
            rw (search_entry, missing)
              (IsHeld-inside (inserting key value) (sym (ap critical stands)))
      ]

  pub advance-IsHeld :
      (p : Pc) (t : Threads)
      → s.pc i ≡ p
      → ((key : List ℕ) (value : ℕ) → p ≢ updating key value)
      → advance lock_of i s p ≡ some t
      → IsHeld lock_of t.holder t.pc
  unfolding advance insert unlock
  advance-IsHeld idle t stands none_updates e = lock-IsHeld (s.todo i) t stands e
  advance-IsHeld (searching k x) t stands none_updates e =
      subst (λ o. IsHeld lock_of o.holder o.pc) (some-injective e) (search-IsHeld k x stands)
  advance-IsHeld (updating k x) t stands none_updates e = absurd (none_updates k x refl)
  advance-IsHeld (inserting k x) t stands none_updates e =
      subst (λ o. IsHeld lock_of o.holder o.pc) (some-injective e)
        (IsHeld-inside (unlocking k) (sym (ap critical stands)))
  advance-IsHeld (unlocking k) t stands none_updates e =
      subst (λ o. IsHeld lock_of o.holder o.pc) (some-injective e) (IsHeld-unlock k stands)
