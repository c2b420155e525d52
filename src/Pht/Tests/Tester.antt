-- ===== src/Pht/Tests/Tester.antt =====
-- Runs of pht/src/pht-tester.c on two keys, and its theorems there.
use kernel_modules.Common.{
  ℕ, zero, suc, ◌<◌, get_elem?, none, ◌+◌, ◌*◌, ◌≤◌, ◌≡◌, refl, some, List, [], ◌∷◌, ◌++◌, length,
  replicate, codes, arith,
}
use kernel_modules.Pht.Text.{bernstein_hash, hash_loop, streq}
use kernel_modules.Pht.Chain.{get_list_entry, set_value}
use kernel_modules.Pht.Base.{
  create, bucket, get_list_head, contains, add_to_list, add_entry, add_entries, drain, destroy,
}
use kernel_modules.Pht.Base.Destroy.{entries}
use kernel_modules.Pht.Threads.{
  begin, lock, search_entry, update, insert, unlock, advance, step, turn, run,
}
use kernel_modules.Pht.V2.{v2_lock_of, v2_destroy_from, v2_destroy}
use kernel_modules.Pht.Tester.{data_bytes, get_global_index, get_string}
use kernel_modules.Pht.Tester.Runs.{
  random_letters, write_string, generate_thread, generate, generate_data, key_at, calls_from,
  run_calls, nested_calls, created_calls, count_missing, run_base,
}
use kernel_modules.Pht.Tester.Strings.{IsStrings}
use kernel_modules.Pht.Tester.Missing.{base_misses_none}
use kernel_modules.Pht.Tester.Threaded.{
  all_joined, finished, run_v1_part, run_v2_part, thread_parts_miss_none,
}
use kernel_modules.Pht.V1.{v1_lock_of, v1_destroy, is_held}
use kernel_modules.Pht.Tester.Indices.{own_string}

program : Unit {0}
unfolding bernstein_hash hash_loop streq get_list_entry set_value create bucket get_list_head
    contains add_to_list add_entry add_entries drain destroy begin lock search_entry update insert
    unlock advance step turn run data_bytes get_global_index get_string generate_data random_letters
    write_string generate_thread generate key_at calls_from run_calls nested_calls count_missing
    run_base v2_lock_of all_joined run_v1_part run_v2_part v1_destroy v2_destroy_from v2_destroy
program = tt

-- The generation with a `rand` that counts.
abbrev two_keys : List ℕ
two_keys = codes "ABCDEFG" ++ (0 ∷ codes "HIJKLMN") ++ (0 ∷ [])

generates : generate_data (λ (n : ℕ). (n, n + 1)) 1 2 0 ≡ some (two_keys, 14)
unfolding program
generates = refl

two_keys-IsStrings : IsStrings 2 two_keys
two_keys-IsStrings = record { size = refl; ends = ends }
  where
    ends : (g : ℕ) → g < 2 → get_elem? two_keys (g * 8 + 7) ≡ some 0
    ends zero h = refl
    ends (suc zero) h = refl
    ends (suc (suc g)) h = absurd (omega arith)

-- A product that wraps: 65536 threads of 65537 keys have room for 65536 strings.
wrapped : data_bytes 65537 65536 ≡ 65536 * 8
unfolding program
wrapped = refl

base_misses_none_example :
    (bytes : List ℕ) × (later : ℕ) × (generate_data (λ (n : ℕ). (n, n + 1)) 1 2 0
      ≡ some (bytes, later))
    × (calls : List (List ℕ × ℕ)) × (nested_calls bytes 1 2 0 ≡ some calls)
    × (run_base bytes 1 2
        ≡ some (
          0,
          (replicate (length (add_entries create calls)) [], entries (add_entries create calls)),
        ))
base_misses_none_example = base_misses_none (λ (n : ℕ). (n, n + 1)) 1 2 0 (omega arith)

-- Both threads at once, each with a list of its own.
abbrev together : List ℕ
together = 0 ∷ 1 ∷ 0 ∷ 1 ∷ 1 ∷ 0 ∷ 1 ∷ 0 ∷ []

abbrev in_turn : List ℕ
in_turn = 0 ∷ 0 ∷ 0 ∷ 0 ∷ 1 ∷ 1 ∷ 1 ∷ 1 ∷ []

thread_parts_miss_none_example :
    let s = run v1_lock_of in_turn (begin (created_calls two_keys 1 2)) in
    (run_v1_part in_turn two_keys 1 2
      ≡ finished (0, ((replicate (length s.table) [], entries s.table), is_held (s.holder 0))))
    × (run_v2_part together two_keys 1 2 ≡ finished (0, none))
unfolding program
thread_parts_miss_none_example =
    thread_parts_miss_none in_turn together two_keys 1 2 (omega arith) two_keys-IsStrings refl refl

own_string_example :
    (◌≡◌ {A = ℕ} 3 3)
    × (◌≡◌ {A = ℕ} 7 7)
    × (get_string 100 (get_global_index 25000 3 7) + 8 ≤ 100 + data_bytes 25000 4)
own_string_example =
    own_string 100 25000 4 3 7 3 7 (omega arith) (omega arith) (omega arith) (omega arith)
      (omega arith) refl
