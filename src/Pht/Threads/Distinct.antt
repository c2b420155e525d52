-- ===== src/Pht/Threads/Distinct.antt =====
-- Threads whose calls have pairwise different keys: no call finds its key, so no call updates.
pub mod Held
pub mod Progress
use kernel_modules.Common.{
  ℕ, zero, suc, ◌+◌, ◌<◌, ◌≡◌, ◌≢◌, refl, sym, ap, ◌∙◌, Bool, true, false, if◌then◌else◌, List, [],
  ◌∷◌, ◌++◌, Option, none, some, ◌==◌, get_elem?, length, arith, Bool-cases, inl, inr, ◌⊎◌,
}
use mathlib.Core.Path.{subst}
use kernel_modules.Pht.Text.{streq}
use kernel_modules.Pht.Base.{contains, create, add_entries, is_some, get_list_head}
use kernel_modules.Pht.Chain.{get_list_entry}
use kernel_modules.Pht.Base.Spec.{is_present, last_value, add_entries-last}
use kernel_modules.Pht.Threads.{Pc, updating, Threads}
use kernel_modules.Pht.Threads.Invariant.{calls, IsLocked, Agrees}
use kernel_modules.Pht.Threads.Order.{by_thread, pending, all_calls}

abbrev pub Call : Type 0
Call = List ℕ × ℕ

-- Calls at two places have different keys.
abbrev pub IsDistinct : (ℕ → List Call) → Type 0
IsDistinct todo =
    (i j n m : ℕ) (a b : Call)
    → get_elem? (todo i) n ≡ some a
    → get_elem? (todo j) m ≡ some b
    → streq b.0 a.0 ≡ true
    → (i ≡ j) × (n ≡ m)

-- Where an addition of an equal key stands among its thread's.
abbrev Added : List (ℕ × Call) → List ℕ → Type 0
Added added key =
    (j : ℕ) × (n : ℕ) × (b : Call) × (get_elem? (by_thread j added) n ≡ some b)
    × (streq b.0 key ≡ true)

Added-later :
    (i : ℕ) (pair : Call) (added : List (ℕ × Call)) (key : List ℕ)
    → Added added key
    → Added ((i, pair) ∷ added) key
unfolding by_thread
Added-later i pair added key (j, n, b, place, same) = elim (Bool-cases (i == j)) [
  | inl e ↦ (j, suc n, b, rw e place, same)
  | inr e ↦ (j, n, b, rw e place, same)
]

Added-first :
    (i : ℕ) (pair : Call) (added : List (ℕ × Call)) (key : List ℕ)
    → streq pair.0 key ≡ true
    → Added ((i, pair) ∷ added) key
unfolding by_thread
Added-first i pair added key same = (i, zero, pair, rw (self i) refl, same)
  where
    self : (i : ℕ) → (i == i) ≡ true
    self i = ground arith

present-Added :
    (added : List (ℕ × Call)) (key : List ℕ) (before : Option ℕ)
    → is_present (last_value (calls added) key before) ≡ true
    → (is_present before ≡ true) ⊎ Added added key
unfolding last_value calls
present-Added [] key before h = inl h
present-Added ((i, (k, x)) ∷ added) key before h =
    elim (present-Added added key (if streq k key then some x else before) h) [
      | inr found ↦ inr (Added-later i (k, x) added key found)
      | inl here ↦ elim (Bool-cases (streq k key)) [
        | inl same ↦ inr (Added-first i (k, x) added key same)
        | inr apart ↦ inl (rw apart at here)
      ]
    ]

get_elem?-append :
    (xs ys : List Call) (n : ℕ) (b : Call)
    → get_elem? xs n ≡ some b
    → (get_elem? (xs ++ ys) n ≡ some b) × (n < length xs)
get_elem?-append [] ys n b h = absurd (cc)
get_elem?-append (x ∷ xs) ys zero b h = (h, omega arith)
get_elem?-append (x ∷ xs) ys (suc n) b h =
    let (at_n, less) = get_elem?-append xs ys n b h in (at_n, omega arith)

get_elem?-middle : (xs ys : List Call) (a : Call) → get_elem? (xs ++ (a ∷ ys)) (length xs) ≡ some a
get_elem?-middle [] ys a = refl
get_elem?-middle (x ∷ xs) ys a = get_elem?-middle xs ys a

module _ (lock_of : List ℕ → ℕ) (todo : ℕ → List Call) (distinct : IsDistinct todo) (s : Threads)
    (v : IsLocked lock_of s) (order : (i : ℕ) → all_calls s i ≡ todo i) where
  clash : (i : ℕ) (key : List ℕ) (value : ℕ) → s.pc i ≡ updating key value → Added s.added key → ⊥
  clash i key value stands (j, n, b, place, same) =
      let (at_n, less) =
        get_elem?-append (by_thread j s.added) (pending (s.pc j) ++ s.todo j) n b place in
      let mine : all_calls s i ≡ by_thread i s.added ++ ((key, value) ∷ s.todo i) = rw stands in
      let (threads, places) =
        distinct i j (length (by_thread i s.added)) n (key, value) b
          (ap (λ l. get_elem? l (length (by_thread i s.added))) (sym (order i) ∙ mine)
            ∙ get_elem?-middle (by_thread i s.added) (s.todo i) (key, value))
          (ap (λ l. get_elem? l n) (sym (order j)) ∙ at_n) same in
      out n (by_thread j s.added) (by_thread i s.added) less places
        (ap (λ x. by_thread x s.added) threads)
    where
      out : (n : ℕ) (xs ys : List Call) → n < length xs → length ys ≡ n → ys ≡ xs → ⊥
      out n xs ys less places same = absurd (omega (arith, less, places, ap (λ l. length l) same))

  in_table :
      (i : ℕ) (key : List ℕ) (value : ℕ) → s.pc i ≡ updating key value → contains s.table key ≡ true
  unfolding contains
  in_table i key value stands =
      let (entry, found) = subst (Agrees s.table) stands (v.agrees i) in rw found

  -- No thread is about to update.
  pub no_update : (i : ℕ) (key : List ℕ) (value : ℕ) → s.pc i ≢ updating key value
  no_update i key value stands =
      elim (present-Added s.added key none (
        sym (ap (λ t. contains t key) v.linear ∙ (add_entries-last (calls s.added) key).1)
        ∙ in_table i key value stands)) [
          | inl before ↦ absurd (cc)
          | inr found ↦ clash i key value stands found
        ]
