-- ===== src/Pht/Threads/Holds.antt =====
-- Who holds which mutex, over the steps of a thread.
use kernel_modules.Common.{
  some-injective, ℕ, ◌≡◌, ◌≢◌, sym, ap, ◌∙◌, List, Option, none, some, inl, inr,
}
use mathlib.Core.Path.{subst}
use kernel_modules.Pht.Threads.{Pc, idle, searching, at}
use kernel_modules.Pht.Threads.Invariant.{critical, at_same, at_other, same_or_other}

module _ (lock_of : List ℕ → ℕ) where
  abbrev pub Holds : (ℕ → Option ℕ) → (ℕ → Pc) → Type 0
  Holds holder pc =
      (i : ℕ) (key : List ℕ) → critical (pc i) ≡ some key → holder (lock_of key) ≡ some i

  module _ (holder : ℕ → Option ℕ) (pc : ℕ → Pc) (i : ℕ) (h : Holds holder pc) where
    stands :
        (p : Pc) (j : ℕ) (key : List ℕ)
        → j ≡ i
        → critical (at i p pc j) ≡ some key
        → critical p ≡ some key
    stands p j key e inside = ap critical (sym (ap (at i p pc) e ∙ at_same i p pc)) ∙ inside

    there :
        (p : Pc) (j : ℕ) (key : List ℕ)
        → j ≢ i
        → critical (at i p pc j) ≡ some key
        → holder (lock_of key) ≡ some j
    there p j key e inside = h j key (ap critical (sym (at_other i p pc j e)) ∙ inside)

    taken :
        (k key : List ℕ) (j : ℕ)
        → holder (lock_of k) ≡ some j
        → holder (lock_of key) ≡ none
        → lock_of k ≢ lock_of key
    taken k key j old free same = absurd (cc (ap holder same))

    -- A step inside a call.
    pub Holds-inside : (p : Pc) → critical p ≡ critical (pc i) → Holds holder (at i p pc)
    Holds-inside p same j key inside = elim (same_or_other i j) [
      | inl e ↦ h i key (sym same ∙ stands p j key e inside) ∙ ap some (sym e)
      | inr other ↦ there p j key other inside
    ]

    pub Holds-idle : Holds holder (at i idle pc)
    Holds-idle j key inside = elim (same_or_other i j) [
      | inl e ↦ absurd (cc (stands idle j key e inside))
      | inr other ↦ there idle j key other inside
    ]

    pub Holds-lock :
        (key : List ℕ) (value : ℕ)
        → holder (lock_of key) ≡ none
        → Holds (at (lock_of key) (some i) holder) (at i (searching key value) pc)
    Holds-lock key value free j k inside = elim (same_or_other i j) [
      | inl e ↦
          subst (λ x. at (lock_of key) (some i) holder (lock_of x) ≡ some j)
            (some-injective (stands (searching key value) j k e inside))
            (at_same (lock_of key) (some i) holder ∙ ap some (sym e))
      | inr other ↦
          let old = there (searching key value) j k other inside in
          at_other (lock_of key) (some i) holder (lock_of k) (taken k key j old free) ∙ old
    ]

    pub Holds-unlock :
        (key : List ℕ)
        → critical (pc i) ≡ some key
        → Holds (at (lock_of key) none holder) (at i idle pc)
    Holds-unlock key mine j k inside = elim (same_or_other i j) [
      | inl e ↦ absurd (cc (stands idle j k e inside))
      | inr other ↦
          let old = there idle j k other inside in
          at_other (lock_of key) none holder (lock_of k)
            (λ same. other (some-injective (sym old ∙ ap holder same ∙ h i key mine)))
          ∙ old
    ]
