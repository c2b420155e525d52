-- ===== src/Vms/Pages/Free.antt =====
-- The search of vms_new_page in `allocated`, and the count of the pages in use.
use kernel_modules.Common.{
  ℕ, zero, suc, ◌+◌, ◌≤◌, ◌<◌, ◌≡◌, refl, ap, ◌⊎◌, inl, inr, Bool, true, false, List, [], ◌∷◌, none,
  some, length, get_elem?, set, if◌then◌else◌, arith,
}
use kernel_modules.Vms.Pages.{find_free}

-- The number of pages in use.
unfoldable pub count : List Bool → ℕ
count [] = 0
count (a ∷ bs) = (if a then 1 else 0) + count bs

-- `i` is the first free index of the array.
pub record IsFirstFree (bs : List Bool) (i : ℕ) : Type 0 where
  pub free : get_elem? bs i ≡ some false
  pub before : (j : ℕ) → j < i → get_elem? bs j ≡ some true

pub count-le-length : (bs : List Bool) → count bs ≤ length bs
unfolding count
count-le-length [] = omega arith
count-le-length (true ∷ bs) = omega (arith, count-le-length bs)
count-le-length (false ∷ bs) = omega (arith, count-le-length bs)

-- What the search answers, from index `k` on: the first free index, or that all are in use.
pub find_free_cases :
    (bs : List Bool) (k : ℕ)
    → ((i : ℕ) × (find_free bs k ≡ some (k + i)) × IsFirstFree bs i × (count bs < length bs))
      ⊎ ((find_free bs k ≡ none) × (count bs ≡ length bs))
unfolding find_free count
find_free_cases [] k = inr (refl, refl)
find_free_cases (false ∷ bs) k =
    inl (0, ap some (omega arith), first, omega (arith, count-le-length bs))
  where
    first : IsFirstFree (false ∷ bs) 0
    first = record { free = refl; before = λ j h. absurd (omega arith) }
find_free_cases (true ∷ bs) k = elim (find_free_cases bs (k + 1)) [
  | inl (i, found, first, room) ↦
      inl (suc i, (rw found (ap some (omega arith))), later i first, omega arith)
  | inr (full, all) ↦ inr (full, omega arith)
]
  where
    later : (i : ℕ) → IsFirstFree bs i → IsFirstFree (true ∷ bs) (suc i)
    later i first = record { free = first.free; before = tail }
      where
        tail : (j : ℕ) → j < suc i → get_elem? (true ∷ bs) j ≡ some true
        tail zero h = refl
        tail (suc j) h = first.before j (omega arith)

pub count-set-true :
    (bs : List Bool) (i : ℕ) → get_elem? bs i ≡ some false → count (set bs i true) ≡ count bs + 1
unfolding count
count-set-true [] i h = cc
count-set-true (a ∷ bs) zero h = ground arith
count-set-true (a ∷ bs) (suc i) h = omega (arith, count-set-true bs i h)

pub count-set-false :
    (bs : List Bool) (i : ℕ) → get_elem? bs i ≡ some true → count (set bs i false) + 1 ≡ count bs
unfolding count
count-set-false [] i h = cc
count-set-false (a ∷ bs) zero h = ground arith
count-set-false (a ∷ bs) (suc i) h = omega (arith, count-set-false bs i h)

-- Writing back what was there.
pub set-set_back :
    (bs : List Bool) (i : ℕ) (b : Bool)
    → get_elem? bs i ≡ some false
    → set (set bs i b) i false ≡ bs
set-set_back [] i b h = refl
set-set_back (a ∷ bs) zero b h = ground arith
set-set_back (a ∷ bs) (suc i) b h = ap (λ bs. a ∷ bs) (set-set_back bs i b h)

pub lt-length_of_get {ℓ} :
    {A : Type ℓ} (xs : List A) (i : ℕ) (a : A) → get_elem? xs i ≡ some a → i < length xs
lt-length_of_get [] i a h = cc
lt-length_of_get (x ∷ xs) zero a h = omega arith
lt-length_of_get (x ∷ xs) (suc i) a h = omega (arith, lt-length_of_get xs i a h)
