-- ===== src/Pht/Tester/Runs.antt =====
-- pht/src/pht-tester.c: the random keys, the additions of main, run_v1 and run_v2, and the count of
-- the keys that are missing.
use kernel_modules.Common.{
  ℕ, zero, suc, ◌+◌, ◌%◌, Bool, false, ◌||◌, ◌==◌, ltb, leb, length, replicate, Option, none, some,
  if◌then◌else◌, List, [], ◌∷◌, ◌++◌, take, drop,
}
use kernel_modules.Pht.Base.{HashTable, create, contains, add_entries, destroy}
use kernel_modules.Pht.Chain.{ListEntry}
use kernel_modules.Pht.Tester.{data_bytes, get_global_index, get_string}

infixl 10 ◌>>=◌
abbrev pub ◌>>=◌ : {A B : Type 0} → Option A → (A → Option B) → Option B
o >>= f = elim o [ none ↦ none | some a ↦ f a ]

abbrev pub or_empty : {A : Type 0} → Option (List A) → List A
or_empty none = []
or_empty (some xs) = xs

-- BYTES_PER_STRING.
abbrev pub bytes_per_string : ℕ
bytes_per_string = 8

abbrev pub letter : ℕ → ℕ
letter r = if ltb r 26 then r + 0x41 else r + 0x47

-- The string at `global_index` in the bytes `data`, and its terminating 0; none if it does not lie
-- in them.
unfoldable pub write_string : ℕ → List ℕ → List ℕ → Option (List ℕ)
unfolding get_string
write_string global_index letters bytes =
    if leb (get_string 0 global_index + bytes_per_string) (length bytes)
    then some (
        take (get_string 0 global_index) bytes
        ++ (letters ++ (0 ∷ []))
        ++ drop (get_string 0 global_index + bytes_per_string) bytes)
    else none

module _ {W : Type 0} (rand : W → ℕ × W) where
  -- The loop over `k`; `rand` is not negative.
  unfoldable pub random_letters : ℕ → W → List ℕ × W
  random_letters zero w = ([], w)
  random_letters (suc count) w =
      let (r, w1) = rand w in
      let (rest, w2) = random_letters count w1 in (letter (r % 52) ∷ rest, w2)

  -- The loop over `j` of the generation, and the one over `i`.
  unfoldable pub generate_thread : ℕ → ℕ → ℕ → ℕ → List ℕ → W → Option (List ℕ × W)
  unfolding random_letters write_string get_global_index
  generate_thread size thread zero j bytes w = some (bytes, w)
  generate_thread size thread (suc count) j bytes w = do
    let (letters, later) = random_letters 7 w
    written ← write_string (get_global_index size thread j) letters bytes
    generate_thread size thread count (j + 1) written later

  unfoldable pub generate : ℕ → ℕ → ℕ → List ℕ → W → Option (List ℕ × W)
  unfolding generate_thread
  generate size zero i bytes w = some (bytes, w)
  generate size (suc count) i bytes w = do
    (written, later) ← generate_thread size i size 0 bytes w
    generate size count (i + 1) written later

-- The array after calloc, and after the generation.
unfoldable pub generate_data : {W : Type 0} → (W → ℕ × W) → ℕ → ℕ → W → Option (List ℕ × W)
unfolding generate data_bytes
generate_data rand size threads w =
    generate rand size threads 0 (replicate (data_bytes size threads) 0) w

abbrev pub has_end : List ℕ → Bool
has_end [] = false
has_end (c ∷ rest) = c == 0 || has_end rest

-- `get_string(global_index)` as the bytes from there on; none if they have no end in `data`, so that a
-- read of the string leaves it.
unfoldable pub key_at : List ℕ → ℕ → Option (List ℕ)
unfolding get_string
key_at bytes global_index =
    let string = drop (get_string 0 global_index) bytes in
    if has_end string then some string else none

-- The calls of add_entry of run_v1 and run_v2, and of one round over `i` in main; none if a key leaves
-- `data`.
unfoldable pub calls_from : List ℕ → ℕ → ℕ → ℕ → ℕ → Option (List (List ℕ × ℕ))
unfolding key_at get_global_index
calls_from bytes size thread zero j = some []
calls_from bytes size thread (suc count) j = do
  key ← key_at bytes (get_global_index size thread j)
  later ← calls_from bytes size thread count (j + 1)
  some ((key, get_global_index size thread j) ∷ later)

unfoldable pub run_calls : List ℕ → ℕ → ℕ → Option (List (List ℕ × ℕ))
unfolding calls_from
run_calls bytes size thread = calls_from bytes size thread size 0

-- The two loops of main, for `count` threads from `i` on.
unfoldable pub nested_calls : List ℕ → ℕ → ℕ → ℕ → Option (List (List ℕ × ℕ))
unfolding run_calls
nested_calls bytes size zero i = some []
nested_calls bytes size (suc count) i = do
  calls ← run_calls bytes size i
  later ← nested_calls bytes size count (i + 1)
  some (calls ++ later)

-- The threads that main creates, each with its calls; the parts below run them only where every key
-- lies in `data`.
abbrev pub created_calls : List ℕ → ℕ → ℕ → ℕ → List (List ℕ × ℕ)
created_calls bytes size threads i = if ltb i threads then or_empty (run_calls bytes size i) else []

-- The count of `missing`, over the calls of the same loops.
unfoldable pub count_missing : (List ℕ → Bool) → List (List ℕ × ℕ) → ℕ
count_missing contains_key [] = 0
count_missing contains_key ((key, value) ∷ rest) =
    let later = count_missing contains_key rest in if contains_key key then later else suc later

-- The part of main on the base table: the count that it prints, and what the destroy leaves and frees;
-- none if a key leaves `data`.
unfoldable pub run_base : List ℕ → ℕ → ℕ → Option (ℕ × (HashTable × List ListEntry))
unfolding nested_calls count_missing contains add_entries create destroy
run_base bytes size threads = do
  calls ← nested_calls bytes size threads 0
  let table = add_entries create calls
  some (count_missing (contains table) calls, destroy table [])
