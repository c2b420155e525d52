-- ===== src/Pht/Tester/Strings.antt =====
-- The strings of pht/src/pht-tester.c: which bytes `data` must have for every key to lie in it.
use kernel_modules.Common.{
  ℕ, zero, suc, ◌+◌, ◌*◌, ◌^◌, ◌≤◌, ◌<◌, ◌≡◌, refl, true, List, [], ◌∷◌, ◌++◌, some, length, drop,
  get_elem?, arith,
}
use kernel_modules.Pht.Tester.{get_global_index, get_string}
use kernel_modules.Pht.Tester.Indices.{next_block, no_wrap}
use kernel_modules.Pht.Tester.Runs.{has_end, key_at, calls_from, run_calls, nested_calls}

-- The array holds `n` strings of eight bytes, each with its terminating 0 last.
pub record IsStrings (n : ℕ) (bytes : List ℕ) : Type 0 where
  pub size : length bytes ≡ n * 8
  pub ends : (g : ℕ) → g < n → get_elem? bytes (g * 8 + 7) ≡ some 0

end_found :
    (bytes : List ℕ) (k m : ℕ) → k ≤ m → get_elem? bytes m ≡ some 0 → has_end (drop k bytes) ≡ true
end_found [] k m h e = absurd (cc e)
end_found (c ∷ bytes) zero zero h e = let zero_byte : c ≡ 0 = cc e in ground (arith, zero_byte)
end_found (c ∷ bytes) zero (suc m) h e = ground (arith, end_found bytes zero m (omega arith) e)
end_found (c ∷ bytes) (suc k) zero h e = absurd (omega arith)
end_found (c ∷ bytes) (suc k) (suc m) h e = end_found bytes k m (omega arith) e

module _ (n : ℕ) (bytes : List ℕ) (v : IsStrings n bytes) where
  key_found : (g : ℕ) → g < n → (key : List ℕ) × (key_at bytes g ≡ some key)
  unfolding key_at get_string
  key_found g h = (
    drop (0 + g * 8) bytes,
    rw (end_found bytes (0 + g * 8) (g * 8 + 7) (omega arith) (v.ends g h)) refl,
  )

  calls_found :
      (size thread count j : ℕ)
      → ((i : ℕ) → i < size → get_global_index size thread i < n)
      → j + count ≤ size
      → (calls : List (List ℕ × ℕ)) × (calls_from bytes size thread count j ≡ some calls)
  unfolding calls_from
  calls_found size thread zero j inside h = ([], refl)
  calls_found size thread (suc count) j inside h =
      let (key, found) = key_found (get_global_index size thread j) (inside j (omega arith)) in
      let (later, rest) = calls_found size thread count (j + 1) inside (omega arith) in
      ((key, get_global_index size thread j) ∷ later, rw (found, rest) refl)

  nested_found :
      (size threads count i : ℕ)
      → n ≡ threads * size
      → threads * size < 2 ^ 32
      → i + count ≤ threads
      → (calls : List (List ℕ × ℕ)) × (nested_calls bytes size count i ≡ some calls)
  unfolding nested_calls run_calls
  nested_found size threads zero i same fits h = ([], refl)
  nested_found size threads (suc count) i same fits h =
      let (calls, now) =
        calls_found size i size 0
          (λ j hj. omega (
            arith,
            same,
            no_wrap size threads i j (omega (arith, fits)) (omega arith) hj,
            next_block i threads size (omega arith),
          ))
          (omega arith) in
      let (later, rest) = nested_found size threads count (i + 1) same fits (omega arith) in
      (calls ++ later, rw (now, rest) refl)

-- As long as threads times size is below 2 ^ 32, every key of such an array lies in it.
pub all_calls :
    (bytes : List ℕ) (size threads : ℕ)
    → threads * size < 2 ^ 32
    → IsStrings (threads * size) bytes
    → (calls : List (List ℕ × ℕ)) × (nested_calls bytes size threads 0 ≡ some calls)
all_calls bytes size threads fits v =
    nested_found (threads * size) bytes v size threads threads 0 refl fits (omega arith)
