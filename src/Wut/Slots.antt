-- ===== src/Wut/Slots.antt =====
-- wut_create always finds a place in the array, and the least one.
use kernel_modules.Common.{
  ℕ, zero, suc, ◌+◌, ◌≤◌, ◌<◌, ◌≡◌, ◌≢◌, refl, ap, ◌∙◌, false, leb, if◌then◌else◌, List, [], ◌∷◌,
  ◌++◌, Option, none, some, length, get_elem?, set, length-append, length-replicate, replicate,
  arith, inl, inr, Bool-cases, pos,
}
use kernel_modules.Wut.{Wut, member, find_null}

-- The slots in use.
unfoldable pub taken : List (Option ℕ) → ℕ
taken [] = 0
taken (none ∷ rest) = taken rest
taken (some pointer ∷ rest) = suc (taken rest)

-- The least index with NULL.
pub record IsLeastNull (slots : List (Option ℕ)) (n : ℕ) : Type 0 where
  pub null : get_elem? slots n ≡ some none
  pub least : (m : ℕ) → m < n → get_elem? slots m ≢ some none

pub find_null-least :
    (slots : List (Option ℕ)) (i : ℕ)
    → taken slots < length slots
    → (n : ℕ) × (find_null slots i ≡ pos (i + n)) × IsLeastNull slots n
unfolding taken find_null
find_null-least [] i h = absurd (omega arith)
find_null-least (none ∷ rest) i h =
    (0, ap pos (plus_zero i), record { null = refl; least = λ m less. absurd (omega arith) })
  where
    plus_zero : (i : ℕ) → i ≡ i + 0
    plus_zero i = omega arith
find_null-least (some p ∷ rest) i h =
    let (n, found, first) = find_null-least rest (i + 1) (omega arith) in
    (suc n, found ∙ ap pos (shift i n), record { null = first.null; least = later n first.least })
  where
    shift : (i n : ℕ) → i + 1 + n ≡ i + suc n
    shift i n = omega arith

    later :
        (n : ℕ)
        → ((m : ℕ) → m < n → get_elem? rest m ≢ some none)
        → (m : ℕ) → m < suc n
        → get_elem? (some p ∷ rest) m ≢ some none
    later n before zero less e = absurd (cc)
    later n before (suc m) less e = before m (omega arith) e

pub taken-set :
    (slots : List (Option ℕ)) (n pointer : ℕ)
    → get_elem? slots n ≡ some none
    → taken (set slots n (some pointer)) ≡ suc (taken slots)
unfolding taken
taken-set [] n pointer h = absurd (cc)
taken-set (none ∷ rest) zero pointer h = refl
taken-set (some p ∷ rest) zero pointer h = absurd (cc)
taken-set (none ∷ rest) (suc n) pointer h = taken-set rest n pointer h
taken-set (some p ∷ rest) (suc n) pointer h = ap suc (taken-set rest n pointer h)

taken-grow : (slots : List (Option ℕ)) (k : ℕ) → taken (slots ++ replicate k none) ≡ taken slots
unfolding taken
taken-grow [] zero = refl
taken-grow [] (suc k) = taken-grow [] k
taken-grow (none ∷ rest) k = taken-grow rest k
taken-grow (some p ∷ rest) k = ap suc (taken-grow rest k)

-- The array has room, the counter is not below the slots in use, and the queue holds only objects
-- that there are.
pub record IsCounted (s : Wut) : Type 0 where
  pub room : 0 < length s.threads
  pub counted : taken s.threads ≤ s.threads_count
  pub known : (a : ℕ) → length s.objects ≤ a → member a s.ready_queue ≡ false

-- The array in which wut_create looks.
abbrev pub grown : Wut → List (Option ℕ)
grown s =
    if leb (length s.threads) s.threads_count
    then s.threads ++ replicate (length s.threads) none
    else s.threads

taken-le : (slots : List (Option ℕ)) → taken slots ≤ length slots
unfolding taken
taken-le [] = omega arith
taken-le (none ∷ rest) = omega (arith, taken-le rest)
taken-le (some p ∷ rest) = omega (arith, taken-le rest)

doubled-room :
    (slots : List (Option ℕ)) (count : ℕ)
    → 0 < length slots
    → taken slots ≤ count
    → (taken (slots ++ replicate (length slots) none)
        < length (slots ++ replicate (length slots) none))
      × (taken (slots ++ replicate (length slots) none) ≤ count)
doubled-room slots count room counted =
    rw
      (
        taken-grow slots (length slots),
        length-append slots (replicate (length slots) none),
        length-replicate {A = Option ℕ} (length slots) none,
      )
      (omega (arith, taken-le slots), counted)

pub grown-room :
    (s : Wut)
    → IsCounted s
    → (taken (grown s) < length (grown s)) × (taken (grown s) ≤ s.threads_count)
grown-room s v = elim (Bool-cases (leb (length s.threads) s.threads_count)) [
  | inl full ↦ rw full (doubled-room s.threads s.threads_count v.room v.counted)
  | inr room ↦ rw room (ground (arith, v.counted), v.counted)
]
