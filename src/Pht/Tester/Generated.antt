-- ===== src/Pht/Tester/Generated.antt =====
-- The generation of pht/src/pht-tester.c writes inside of `data` and leaves it full of strings.
use kernel_modules.Common.{
  ℕ, zero, suc, ◌+◌, ◌-◌, ◌*◌, ◌^◌, ◌≤◌, ◌<◌, ◌≡◌, refl, ap, ◌∙◌, true, ◌==◌, List, [], ◌∷◌, ◌++◌,
  some, length, length-append, length-replicate, length-take, length-drop, replicate, take, drop,
  get_elem?, leb, arith, Bool-cases, ◌⊎◌, inl, inr,
}
use kernel_modules.Pht.Tester.{data_bytes, get_global_index, get_string}
use kernel_modules.Pht.Tester.Indices.{next_block, no_wrap}
use kernel_modules.Pht.Tester.Runs.{
  random_letters, write_string, generate_thread, generate, generate_data,
}
use kernel_modules.Pht.Tester.Strings.{IsStrings}

get-left : (xs ys : List ℕ) (i : ℕ) → i < length xs → get_elem? (xs ++ ys) i ≡ get_elem? xs i
get-left [] ys i h = absurd (omega arith)
get-left (x ∷ xs) ys zero h = refl
get-left (x ∷ xs) ys (suc i) h = get-left xs ys i (omega arith)

get-right : (xs ys : List ℕ) (i n : ℕ) → n ≡ length xs + i → get_elem? (xs ++ ys) n ≡ get_elem? ys i
get-right [] ys i n h = ap (get_elem? ys) (omega (arith, h))
get-right (x ∷ xs) ys i zero h = absurd (omega (arith, h))
get-right (x ∷ xs) ys i (suc n) h = get-right xs ys i n (omega (arith, h))

get-take :
    (k : ℕ) (xs : List ℕ) (i : ℕ) → i < k → k ≤ length xs → get_elem? (take k xs) i ≡ get_elem? xs i
get-take zero xs i h k = absurd (omega arith)
get-take (suc k) [] i h m = absurd (omega arith)
get-take (suc k) (x ∷ xs) zero h m = refl
get-take (suc k) (x ∷ xs) (suc i) h m = get-take k xs i (omega arith) (omega arith)

get-drop : (k : ℕ) (xs : List ℕ) (i n : ℕ) → n ≡ k + i → get_elem? (drop k xs) i ≡ get_elem? xs n
get-drop zero xs i n h = ap (get_elem? xs) (omega (arith, h))
get-drop (suc k) [] i n h = refl
get-drop (suc k) (x ∷ xs) i zero h = absurd (omega (arith, h))
get-drop (suc k) (x ∷ xs) i (suc n) h = get-drop k xs i n (omega (arith, h))

-- Eight bytes in the place of those from index `k` on.
module _ (k : ℕ) (letters bytes : List ℕ) (seven : length letters ≡ 7)
    (inside : k + 8 ≤ length bytes) where
  written : List ℕ
  written = take k bytes ++ (letters ++ (0 ∷ [])) ++ drop (k + 8) bytes

  front : length (take k bytes ++ (letters ++ (0 ∷ []))) ≡ k + 8
  front = omega (
    arith,
    seven,
    length-append (take k bytes) (letters ++ (0 ∷ [])),
    length-append letters (0 ∷ []),
    length-take k bytes,
  )

  length-written : length written ≡ length bytes
  unfolding written
  length-written = omega (
    arith,
    front,
    length-append (take k bytes ++ (letters ++ (0 ∷ []))) (drop (k + 8) bytes),
    length-drop (k + 8) bytes,
  )

  at_end : get_elem? written (k + 7) ≡ some 0
  unfolding written
  at_end =
      get-left (take k bytes ++ (letters ++ (0 ∷ []))) (drop (k + 8) bytes) (k + 7)
        (omega (arith, front))
      ∙ get-right (take k bytes) (letters ++ (0 ∷ [])) 7 (k + 7)
          (omega (arith, length-take k bytes))
      ∙ get-right letters (0 ∷ []) 0 7 (omega (arith, seven))

  before : (i : ℕ) → i < k → get_elem? written i ≡ get_elem? bytes i
  unfolding written
  before i h =
      get-left (take k bytes ++ (letters ++ (0 ∷ []))) (drop (k + 8) bytes) i (omega (arith, front))
      ∙ get-left (take k bytes) (letters ++ (0 ∷ [])) i (omega (arith, length-take k bytes))
      ∙ get-take k bytes i h (omega arith)

  behind : (i : ℕ) → k + 8 ≤ i → get_elem? written i ≡ get_elem? bytes i
  unfolding written
  behind i h =
      get-right (take k bytes ++ (letters ++ (0 ∷ []))) (drop (k + 8) bytes) (i - (k + 8)) i
        (omega (arith, front))
      ∙ get-drop (k + 8) bytes (i - (k + 8)) i (omega arith)

module _ (n : ℕ) where
  write_keeps :
      (g : ℕ) (letters bytes : List ℕ)
      → length letters ≡ 7
      → g < n
      → IsStrings n bytes
      → (w : List ℕ) × (write_string g letters bytes ≡ some w) × IsStrings n w
  unfolding write_string get_string
  write_keeps g letters bytes seven h v = (
    written (0 + g * 8) letters bytes seven inside,
    rw (test) (unfold written in refl),
    record {
      size = length-written (0 + g * 8) letters bytes seven inside ∙ v.size;
      ends = λ e less. elim (Bool-cases (e == g)) [
        | inl same ↦
            ap (get_elem? _) (eight e (ground (arith, same)))
            ∙ at_end (0 + g * 8) letters bytes seven inside
        | inr other ↦ elsewhere e less (ground (arith, other))
      ];
    },
  )
    where
      inside : 0 + g * 8 + 8 ≤ length bytes
      inside = omega (arith, v.size, h)

      test : leb (0 + g * 8 + 8) (length bytes) ≡ true
      test = ground (arith, inside)

      eight : (e : ℕ) → e ≡ g → e * 8 + 7 ≡ 0 + g * 8 + 7
      eight e same = omega (arith, same)

      elsewhere :
          (e : ℕ)
          → e < n
          → (e < g) ⊎ (g < e)
          → get_elem? (written (0 + g * 8) letters bytes seven inside) (e * 8 + 7) ≡ some 0
      elsewhere e less (inl low) =
          before (0 + g * 8) letters bytes seven inside (e * 8 + 7) (omega arith) ∙ v.ends e less
      elsewhere e less (inr high) =
          behind (0 + g * 8) letters bytes seven inside (e * 8 + 7) (omega arith) ∙ v.ends e less

module _ {W : Type 0} (rand : W → ℕ × W) where
  seven_letters : (count : ℕ) (w : W) → length (random_letters rand count w).0 ≡ count
  unfolding random_letters
  seven_letters zero w = refl
  seven_letters (suc count) w = omega (arith, seven_letters count (rand w).1)

  module _ (size threads : ℕ) (fits : threads * size < 2 ^ 32) where
    thread_keeps :
        (thread count j : ℕ) (bytes : List ℕ) (w : W)
        → thread < threads
        → j + count ≤ size
        → IsStrings (threads * size) bytes
        → (after : List ℕ) × (later : W) × (generate_thread rand size thread count j bytes w
            ≡ some (after, later))
          × IsStrings (threads * size) after
    unfolding generate_thread
    thread_keeps thread zero j bytes w h k v = (bytes, w, refl, v)
    thread_keeps thread (suc count) j bytes w h k v =
        let (letters, later) = random_letters rand 7 w in
        let (after, runs, still) =
          write_keeps (threads * size) (get_global_index size thread j) letters bytes
            (seven_letters 7 w)
            (omega (
              arith,
              no_wrap size threads thread j (omega (arith, fits)) h (omega arith),
              next_block thread threads size h,
            ))
            v in
        let (end, last, rest, holds) =
          thread_keeps thread count (j + 1) after later h (omega arith) still in
        (end, last, rw runs rest, holds)

    all_keep :
        (count i : ℕ) (bytes : List ℕ) (w : W)
        → i + count ≤ threads
        → IsStrings (threads * size) bytes
        → (after : List ℕ) × (later : W) × (generate rand size count i bytes w
            ≡ some (after, later))
          × IsStrings (threads * size) after
    unfolding generate
    all_keep zero i bytes w h v = (bytes, w, refl, v)
    all_keep (suc count) i bytes w h v =
        let (after, later, runs, still) =
          thread_keeps i size 0 bytes w (omega arith) (omega arith) v in
        let (end, last, rest, holds) = all_keep count (i + 1) after later (omega arith) still in
        (end, last, rw runs rest, holds)

    pub generated :
        (w : W)
        → (bytes : List ℕ) × (later : W) × (generate_data rand size threads w ≡ some (bytes, later))
          × IsStrings (threads * size) bytes
    unfolding generate_data
    generated w =
        let (bytes, later, runs, v) =
          all_keep threads 0 (replicate (data_bytes size threads) 0) w (omega arith) zeros in
        (bytes, later, runs, v)
      where
        room : data_bytes size threads ≡ threads * size * 8
        room = unfold data_bytes in omega (arith, fits)

        zero_at : (n i : ℕ) → i < n → get_elem? {A = ℕ} (replicate n 0) i ≡ some 0
        zero_at zero i h = absurd (omega arith)
        zero_at (suc n) zero h = refl
        zero_at (suc n) (suc i) h = zero_at n i (omega arith)

        zeros : IsStrings (threads * size) (replicate (data_bytes size threads) 0)
        zeros = record {
          size = length-replicate (data_bytes size threads) 0 ∙ room;
          ends = λ g h. zero_at (data_bytes size threads) (g * 8 + 7) (omega (arith, room));
        }
