-- ===== src/Ssp/Print.antt =====
-- ssp/src/ssp.c: ssp_print, and ssp_unknown, which takes the children that have ended.
use kernel_modules.Common.{
  ℕ, zero, suc, ◌+◌, Bool, true, false, ◌==◌, ltb, if◌then◌else◌, List, [], ◌∷◌, ◌++◌, length, ℤ,
  pos, minus_one, is_negative, same_int, codes, space, show_int, pad_left, pad_right, ok, ◌>>=◌,
  ◌>>◌, ret,
}
use kernel_modules.Ssp.{
  Process, Waited, System, SspCall, null_pointer, out_of_fuel, out, quit, or_quit, call, print,
  process, for_each, ssp_proc_add,
}
use kernel_modules.Ssp.Spawn.{take_id}
use kernel_modules.Ssp.Status.{ssp_exit, report, ssp_check_exit}

unfoldable pub max : ℕ → ℕ → ℕ
max a b = if ltb b a then a else b

-- What `printf` writes for "%7s %-*s %s" and "%7d %-*s %d".
abbrev pub columns : ℕ → List ℕ → List ℕ → List ℕ → List ℕ
columns max_len pid name status =
    pad_left 7 pid ++ (space ∷ []) ++ pad_right max_len name ++ (space ∷ []) ++ status

module _ {W : Type 0} where
  -- The loop of longest_proc_name, for `count` entries from index `i` on.
  unfoldable pub longest_from : ℕ → ℕ → ℕ → SspCall W ℕ
  unfolding max
  longest_from zero i max_len = ret max_len
  longest_from (suc count) i max_len = do
    p ← process (pos i)
    if is_negative p.pid then longest_from count (i + 1) max_len else do
      name ← or_quit null_pointer p.name
      longest_from count (i + 1) (max max_len (length name))

  unfoldable pub longest_proc_name : SspCall W ℕ
  unfolding longest_from
  longest_proc_name = do
    size ← (λ s. ok (s.processes_size, s))
    longest_from size 0 (length (codes "CMD"))

  unfoldable pub print_header : ℕ → SspCall W (Unit {0})
  print_header max_len = print (out (columns max_len (codes "PID") (codes "CMD") (codes "STATUS")))

  unfoldable pub ssp_proc_print : ℤ → ℕ → SspCall W (Unit {0})
  ssp_proc_print id max_len = do
    p ← process id
    name ← or_quit null_pointer p.name
    print (out (columns max_len (show_int p.pid) name (show_int p.status)))

-- The search of ssp_unknown.
unfoldable pub find_pid : ℤ → List Process → Bool
find_pid pid [] = false
find_pid pid (p ∷ rest) =
    let later = find_pid pid rest in if same_int p.pid pid then true else later

module _ {W : Type 0} (os : System W) where
  -- What ssp_unknown does with a child that it has taken.
  unfoldable pub adopt : Waited → SspCall W (Unit {0})
  unfolding find_pid
  adopt w = do
    found ← (λ s. ok (find_pid w.result s.processes, s))
    if found then ret tt else do
      id ← take_id os
      ssp_proc_add id w.result (codes "<unknown>") (pos 0)
      ssp_exit id w.word

  -- The loop of ssp_unknown.
  unfoldable pub unknown_loop : ℕ → SspCall W (Unit {0})
  unfolding adopt
  unknown_loop zero = quit out_of_fuel
  unknown_loop (suc fuel) = do
    w ← call (os.waitpid minus_one true)
    code ← (λ s. ok (os.errno s.world, s))
    if is_negative w.result
        then (if code == os.echild then ret tt else do report os "wait child"; unknown_loop fuel)
        else if same_int w.result (pos 0)
        then ret tt
        else (do adopt w; unknown_loop fuel)

  -- The body of the loop of ssp_print.
  unfoldable pub print_one : ℕ → ℤ → SspCall W (Unit {0})
  print_one max_len id = do
    p ← process id
    if is_negative p.pid then ret tt else do ssp_check_exit os id; ssp_proc_print id max_len

  unfoldable pub ssp_print : ℕ → SspCall W (Unit {0})
  unfolding unknown_loop print_one
  ssp_print fuel = do
    unknown_loop fuel
    max_len ← longest_proc_name
    print_header max_len
    size ← (λ s. ok (s.processes_size, s))
    for_each size 0 (λ i. print_one max_len (pos i))
