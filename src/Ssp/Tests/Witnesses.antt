-- ===== src/Ssp/Tests/Witnesses.antt =====
-- The theorems on ssp/src/ssp.c at concrete states, on the kernel of Ssp.Tests.
use Prim.Native.String.{String}
use kernel_modules.Common.{
  some, same_int, if◌then◌else◌, ◌++◌, minus_one, Bool, false, ◌||◌, ◌==◌, ℤ, negsuc, codes, List,
  [], ◌∷◌, pos, ℕ, ◌<◌, ◌≡◌, refl, true, length, is_negative, ok, stop, arith,
}
use kernel_modules.Ssp.{Entry, Process, System, State, exit, perror}
use kernel_modules.Ssp.Spawn.{atoi, ssp_create}
use kernel_modules.Ssp.Status.{ssp_exit, ssp_get_status, ssp_send_signal, ssp_wait, is_positive}
use kernel_modules.Ssp.Table.{with, env, put, stepped, walk, named_process}
use kernel_modules.Ssp.Shows.{Shows, HasMemory}
use kernel_modules.Ssp.Create.{added, forked, ssp_create_lem}
use kernel_modules.Ssp.Child.{child_end, create_child}
use kernel_modules.Ssp.Decode.{killed, ssp_exit_lem, check_step, ssp_get_status_lem}
use kernel_modules.Ssp.Wait.{first_invalid, judged, wait_step, ssp_wait_lem}
use kernel_modules.Ssp.Unknown.{Reaps}
use kernel_modules.Ssp.Session.{Reached, starts, creates, Reached-Shows}
use kernel_modules.Ssp.Signal.{fresh, ssp_init_lem, signalled, send_signal_newest}
use kernel_modules.Ssp.Printed.{Printed, ssp_print_lem}
use kernel_modules.Ssp.Tests.{
  Kernel, small_kernel, ended, start, first, kernel, second, two, wait_any, runs,
}

small-Reaps : Reaps small_kernel ended
small-Reaps = record {
  no_child = λ k h. no_child k.zombies k.running k h;
  fewer = λ k h. fewer k.zombies k.running k h;
  memory_aside = λ n k. refl;
}
  where
    no_child :
        (zombies : List (ℕ × ℕ)) (running : List ℕ) (k : Kernel)
        → is_negative (wait_any zombies running k).0.result ≡ true
        → (wait_any zombies running k).1.error_code ≡ 10
    no_child [] [] k h = refl
    no_child [] (pid ∷ rest) k h = absurd (cc h)
    no_child (z ∷ rest) running k h = absurd (cc h)

    fewer :
        (zombies : List (ℕ × ℕ)) (running : List ℕ) (k : Kernel)
        → is_positive (wait_any zombies running k).0.result ≡ true
        → ended (wait_any zombies running k).1 < length zombies
    fewer [] [] k h = absurd (cc h)
    fewer [] (pid ∷ rest) k h = absurd (cc h)
    fewer ((pid, word) ∷ rest) running k h = omega arith

memory : HasMemory small_kernel
memory bytes k = refl

two-Shows : (k : Kernel) → Shows (two k) (first ∷ second ∷ [])
two-Shows k = record {
  free = 2;
  table = refl;
  size = refl;
  newest = refl;
  room = omega arith;
  known = refl;
}

ssp_create_lem_example :
    let child = named_process (pos 9) (codes "cat") minus_one in
    let t = added small_kernel (forked small_kernel (two kernel)) 2 child in
    (ssp_create small_kernel (codes "cat" ∷ []) (pos 0) (pos 1) (pos 2) (two kernel)
      ≡ ok (pos 2, t))
    × Shows t (first ∷ second ∷ child ∷ [])
ssp_create_lem_example =
    ssp_create_lem small_kernel (two kernel) (first ∷ second ∷ []) (codes "cat") [] (pos 0) (pos 1)
      (pos 2) memory (two-Shows kernel) refl refl

-- The child's side of fork.
abbrev link : String → Entry
link name = record { d_name = codes name; is_link = true }

-- The child has the descriptors 0, 3 (the directory), 7 and 8, and the close of 8 is interrupted.
abbrev child_side : System Kernel
child_side = record small_kernel {
  fork = λ k. (pos 0, k);
  fdopendir = λ fd k. (some (link "0" ∷ link "3" ∷ link "7" ∷ link "8" ∷ []), k);
  close =
      λ fd k. if same_int fd (pos 8) then (minus_one, record k { error_code = 4 }) else (pos 0, k);
}

create_child_example :
    ssp_create child_side (codes "cat" ∷ []) (pos 0) (pos 1) (pos 2) (two kernel)
    ≡ stop (
      exit 4,
      record (two kernel) {
        world = record kernel { error_code = 4 };
        output = (two kernel).output ++ (perror "close" 4 ∷ []);
      },
    )
unfolding child_end atoi
create_child_example =
    create_child child_side (two kernel) (codes "cat" ∷ []) (pos 0) (pos 1) (pos 2)
      (λ args k value h. absurd (cc h)) refl

ssp_exit_lem_example :
    ssp_exit (pos 0) 137 (two kernel)
    ≡ ok (tt, put (two kernel) 0 (record first { status = pos 137 }))
ssp_exit_lem_example = ssp_exit_lem (two kernel) 0 first (killed 9 true) refl refl

ssp_get_status_lem_example :
    ssp_get_status small_kernel (pos 0) (two kernel)
    ≡ ok (pos 137, stepped (check_step small_kernel) (two kernel) 0 first)
ssp_get_status_lem_example = ssp_get_status_lem small_kernel (two kernel) 0 first refl

ssp_wait_lem_example :
    ssp_wait small_kernel (two kernel)
    ≡ judged
        (first_invalid (walk (wait_step small_kernel) (two kernel).processes (env (two kernel))).0)
        (with
          (two kernel)
          (walk (wait_step small_kernel) (two kernel).processes (env (two kernel))).0
          (walk (wait_step small_kernel) (two kernel).processes (env (two kernel))).1)
ssp_wait_lem_example = ssp_wait_lem small_kernel (two kernel) refl

-- The children of the small kernel: those that run, and those that have ended and are not taken.
abbrev ended_child : ℕ → List (ℕ × ℕ) → Bool
ended_child pid [] = false
ended_child pid ((other, word) ∷ rest) = pid == other || ended_child pid rest

abbrev child_of : List ℕ → List (ℕ × ℕ) → ℤ → Bool
child_of running zombies (pos pid) = runs pid running || ended_child pid zombies
child_of running zombies (negsuc n) = false

abbrev is_child : Kernel → ℤ → Bool
is_child k pid = child_of k.running k.zombies pid

-- A signal for process 0 goes to process 1, the newest.
send_signal_newest_example :
    ssp_send_signal small_kernel (pos 0) (pos 15) (two kernel)
    ≡ signalled small_kernel second (pos 15) (two kernel)
send_signal_newest_example =
    send_signal_newest small_kernel (pos 0) (pos 15) (two kernel) 1 second refl refl

ssp_print_lem_example : Printed small_kernel (two kernel) (first ∷ second ∷ []) 3
ssp_print_lem_example =
    ssp_print_lem small_kernel ended 3 (two kernel) (first ∷ second ∷ []) memory small-Reaps
      (two-Shows kernel) (omega arith)

-- The state after ssp_init and one ssp_create.
abbrev cat : Process
cat = named_process (pos 5) (codes "cat") minus_one

abbrev one_child : State Kernel
one_child = added small_kernel (forked small_kernel (fresh small_kernel start)) 0 cat

one_child-Reached : Reached small_kernel ended one_child
one_child-Reached =
    creates (fresh small_kernel start) one_child (codes "cat" ∷ []) (pos 0) (pos 1) (pos 2) (pos 0)
      (starts start (fresh small_kernel start) refl (ssp_init_lem small_kernel start memory refl).0)
      (ssp_create_lem small_kernel (fresh small_kernel start) [] (codes "cat") [] (pos 0) (pos 1)
        (pos 2) memory (ssp_init_lem small_kernel start memory refl).1 refl refl).0

Reached-Shows_example : (used : List Process) × Shows one_child used
Reached-Shows_example =
    Reached-Shows small_kernel ended one_child memory (λ args k value h. absurd (cc h)) small-Reaps
      one_child-Reached
