-- ===== src/Ssp/Tests.antt =====
-- Runs of ssp/src/ssp.c on a small kernel, and its theorems at concrete states.
mod Witnesses
use kernel_modules.Common.{
  ℕ, ◌+◌, ◌<◌, ◌≡◌, refl, Bool, true, false, if◌then◌else◌, ◌==◌, List, [], ◌∷◌, ◌++◌, Option, none,
  some, drop, length, ℤ, pos, negsuc, minus_one, is_negative, codes, Outcome, ok, stop, ◌>>=◌, ◌>>◌,
  ret, arith,
}
use kernel_modules.Ssp.{
  Process, Waited, System, Line, out, err, perror, State, Reason, exit, process, change, for_each,
  ssp_set_pid, ssp_set_stat, ssp_set_name, ssp_proc_add, ssp_proc_init, exit_errno, error_check,
  ssp_expand, ssp_init,
}
use kernel_modules.Ssp.Spawn.{
  atoi, set_fds, close_entries, close_fds, run_child, take_id, add_child, ssp_create,
}
use kernel_modules.Ssp.Status.{
  ssp_exit, ssp_check_exit, ssp_get_status, ssp_send_signal, wait_one, check_status, ssp_wait,
  is_positive,
}
use kernel_modules.Ssp.Print.{
  max, columns, longest_from, longest_proc_name, print_header, ssp_proc_print, find_pid, adopt,
  unknown_loop, print_one, ssp_print,
}
use kernel_modules.Ssp.Table.{with, env, put, stepped, walk, named_process, blank}
use kernel_modules.Ssp.Shows.{Shows, HasMemory}
use kernel_modules.Ssp.Create.{added, forked, ssp_create_lem}
use kernel_modules.Ssp.Decode.{killed, ssp_exit_lem, check_step, ssp_get_status_lem}
use kernel_modules.Ssp.Wait.{first_invalid, judged, wait_step, ssp_wait_lem}
use kernel_modules.Ssp.Unknown.{Reaps, Reaped, unknown_lem}
use kernel_modules.Ssp.Signal.{fresh, ssp_init_lem, signalled, send_signal_newest}
use kernel_modules.Ssp.Rows.{columns_aligned}
use kernel_modules.Ssp.Printed.{Printed, ssp_print_lem}

program : Unit {0}
unfolding process change for_each ssp_set_pid ssp_set_stat ssp_set_name ssp_proc_add ssp_proc_init
    exit_errno error_check ssp_expand ssp_init atoi set_fds close_entries close_fds run_child
    take_id add_child ssp_create ssp_exit ssp_check_exit ssp_get_status ssp_send_signal wait_one
    check_status ssp_wait max longest_from longest_proc_name print_header ssp_proc_print find_pid
    adopt unknown_loop print_one ssp_print
program = tt

-- The pids of the children that run, and the others, each with the word of its end.
pub record Kernel : Type 0 where
  pub running : List ℕ
  pub zombies : List (ℕ × ℕ)
  pub next_pid : ℕ
  pub error_code : ℕ

abbrev pub gone : Kernel → Waited × Kernel
gone k = (record { result = minus_one; word = 0 }, record k { error_code = 10 })

abbrev pub nothing_yet : Kernel → Waited × Kernel
nothing_yet k = (record { result = pos 0; word = 0 }, k)

abbrev pub wait_any : List (ℕ × ℕ) → List ℕ → Kernel → Waited × Kernel
wait_any [] [] k = gone k
wait_any [] (pid ∷ rest) k = nothing_yet k
wait_any ((pid, word) ∷ rest) running k =
    (record { result = pos pid; word = word }, record k { zombies = rest })

abbrev pub zombie : ℕ → List (ℕ × ℕ) → Option ℕ
zombie pid [] = none
zombie pid ((other, word) ∷ rest) =
    let later = zombie pid rest in if pid == other then some word else later

abbrev pub bury : ℕ → List (ℕ × ℕ) → List (ℕ × ℕ)
bury pid [] = []
bury pid ((other, word) ∷ rest) =
    let later = bury pid rest in if pid == other then rest else (other, word) ∷ later

abbrev pub runs : ℕ → List ℕ → Bool
runs pid [] = false
runs pid (other ∷ rest) = let later = runs pid rest in if pid == other then true else later

abbrev pub remove : ℕ → List ℕ → List ℕ
remove pid [] = []
remove pid (other ∷ rest) =
    let later = remove pid rest in if pid == other then rest else other ∷ later

-- A child that is waited for without WNOHANG exits with 0, if it has not ended.
abbrev pub wait_for : ℕ → Bool → Kernel → Waited × Kernel
wait_for pid no_hang k = elim (zombie pid k.zombies) [
  | some word ↦
      (record { result = pos pid; word = word }, record k { zombies = bury pid k.zombies })
  | none ↦
      if runs pid k.running
      then (if no_hang
          then nothing_yet k
          else (record { result = pos pid; word = 0 }, record k { running = remove pid k.running }))
      else gone k
]

abbrev pub small_waitpid : ℤ → Bool → Kernel → Waited × Kernel
small_waitpid (pos pid) no_hang k = wait_for pid no_hang k
small_waitpid (negsuc n) no_hang k = wait_any k.zombies k.running k

abbrev pub number : ℤ → ℕ
number (pos n) = n
number (negsuc n) = 0

abbrev pub small_kernel : System Kernel
small_kernel = record {
  errno = λ k. k.error_code;
  echild = 10;
  fork = λ k. (
    pos k.next_pid,
    record k { running = k.running ++ (k.next_pid ∷ []); next_pid = k.next_pid + 1 },
  );
  waitpid = small_waitpid;
  kill = λ pid signum k. (
    pos 0,
    record k {
      running = remove (number pid) k.running;
      zombies = k.zombies ++ ((number pid, number signum) ∷ []);
    },
  );
  allocate = λ bytes k. (true, k);
  garbage = named_process (pos 77) (codes "?") (negsuc 4);
  set_subreaper = λ k. k;
  getpid = λ k. 1;
  dup2 = λ old new k. (new, k);
  open_file = λ path k. (pos 3, k);
  fdopendir = λ fd k. (some [], k);
  closedir = λ fd k. (pos 0, k);
  close = λ fd k. (pos 0, k);
  execvp = λ argv k. (none, k);
}

abbrev pub ended : Kernel → ℕ
ended k = length k.zombies

abbrev pub start : State Kernel
start = record {
  processes = [];
  processes_size = 100;
  ssp_id = minus_one;
  output = [];
  world = record { running = []; zombies = []; next_pid = 5; error_code = 0 };
}

-- A table of four with two processes: one that runs, and one with the status 3.
abbrev pub first : Process
first = named_process (pos 5) (codes "sleep") minus_one

abbrev pub second : Process
second = named_process (pos 6) (codes "ls") (pos 3)

abbrev pub two : Kernel → State Kernel
two k = record {
  processes = first ∷ second ∷ blank ∷ blank ∷ [];
  processes_size = 4;
  ssp_id = pos 1;
  output = [];
  world = k;
}

-- The first process has died of signal 9, and a child 8 that the table does not have exited with 2.
abbrev pub kernel : Kernel
kernel = record { running = []; zombies = (5, 9) ∷ (8, 512) ∷ []; next_pid = 9; error_code = 0 }

abbrev pub outcome :
    {A : Type 0} → Outcome (Reason × State Kernel) (A × State Kernel) → (Option A) × List Line
outcome (ok (a, s)) = (some a, s.output)
outcome (stop (reason, s)) = (none, s.output)

-- ssp_print takes the child 5, whose status stays -1, adds the child 8, and ssp_wait then fails.
prints : outcome ((do ssp_print small_kernel 3; ssp_wait small_kernel) (two kernel)) ≡ (
  none,
  out (codes "    PID CMD       STATUS")
      ∷ perror "check exit" 10
      ∷ out (codes "      5 sleep     -1")
      ∷ perror "check exit" 10
      ∷ out (codes "      6 ls        3")
      ∷ perror "check exit" 10
      ∷ out (codes "      8 <unknown> 2")
      ∷ err (codes "Process 5 has an invalid status: -1")
      ∷ [],
)
unfolding program
prints = refl

-- The whole life of two children: one is killed, one waited for.
lives :
    outcome {A = ℤ × ℤ} (
      (do
        ssp_init small_kernel
        cat ← ssp_create small_kernel (codes "cat" ∷ []) (pos 0) (pos 1) (pos 2)
        ls ← ssp_create small_kernel (codes "ls" ∷ []) (pos 0) (pos 1) (pos 2)
        ssp_send_signal small_kernel ls (pos 15)
        of_ls ← ssp_get_status small_kernel ls
        ssp_wait small_kernel
        of_cat ← ssp_get_status small_kernel cat
        ret (of_ls, of_cat))
        start)
    ≡ (some (pos 143, pos 0), perror "check exit" 10 ∷ [])
unfolding program
lives = refl

-- The status of an id that no process has: the child 5 is taken, and its status is lost.
takes_any :
    outcome {A = ℤ × ℤ} (
      (do
        unused ← ssp_get_status small_kernel (pos 3)
        mine ← ssp_get_status small_kernel (pos 0)
        ret (unused, mine))
        (two kernel))
    ≡ (some (pos 137, minus_one), perror "check exit" 10 ∷ [])
unfolding program
takes_any = refl
