-- ===== src/Ssp/Session.antt =====
-- Programs that use ssp/src/ssp.c: what the table looks like after any calls of its functions.
use kernel_modules.Common.{
  ℕ, ◌<◌, ◌≡◌, refl, ap, ◌∙◌, true, false, List, [], ◌∷◌, ◌++◌, none, some, length, get_elem?, set,
  ℤ, pos, negsuc, minus_one, is_negative, same_int, ok, stop, Option-cases, same_end, stop_not_ok,
  Bool-cases, inl, inr, ◌>>=◌, ◌>>◌, arith,
}
use mathlib.Core.Path.{subst}
use kernel_modules.Ssp.{
  Process, System, Line, State, exit, perror, null_pointer, error_check, exit_errno, ssp_init,
}
use kernel_modules.Ssp.Spawn.{ssp_create, add_child}
use kernel_modules.Ssp.Status.{ssp_get_status, ssp_send_signal, ssp_wait}
use kernel_modules.Ssp.Print.{ssp_print}
use kernel_modules.Ssp.Table.{named_process, with, env, walk}
use kernel_modules.Ssp.Keeps.{signal-Keeps}
use kernel_modules.Ssp.Shows.{Shows, Shows-env, HasMemory, is_known, table-length}
use kernel_modules.Ssp.Grow.{opened, take_id_runs}
use kernel_modules.Ssp.Create.{ssp_create_lem, forked}
use kernel_modules.Ssp.Child.{ExecFails, create_child}
use kernel_modules.Ssp.Decode.{check_step, ssp_get_status_lem}
use kernel_modules.Ssp.Wait.{first_invalid, judged, wait_step, ssp_wait_lem}
use kernel_modules.Ssp.Walks.{walk-table, walked, walked-Shows, set-Shows}
use kernel_modules.Ssp.Unknown.{Reaps, adopt_all}
use kernel_modules.Ssp.Signal.{ssp_init_lem}
use kernel_modules.Ssp.Printed.{print_all, ssp_print_lem}

module _ {W : Type 0} (os : System W) where
  -- The states after ssp_init and calls that have returned. A status is asked for an id that
  -- ssp_create or ssp_print has given to a process.
  pub data Reached (ended : W → ℕ) : State W → Type 0 where
    starts : (s t : State W) → s.ssp_id ≡ minus_one → ssp_init os s ≡ ok (tt, t) → Reached ended t
    creates :
        (s t : State W) (argv : List (List ℕ)) (fd0 fd1 fd2 id : ℤ)
        → Reached ended s
        → ssp_create os argv fd0 fd1 fd2 s ≡ ok (id, t)
        → Reached ended t
    asks :
        (s t : State W) (id : ℕ) (p : Process) (status : ℤ)
        → Reached ended s
        → get_elem? s.processes id ≡ some p
        → is_known p ≡ true
        → ssp_get_status os (pos id) s ≡ ok (status, t)
        → Reached ended t
    signals :
        (s t : State W) (id signum : ℤ)
        → Reached ended s
        → ssp_send_signal os id signum s ≡ ok (tt, t)
        → Reached ended t
    waits : (s t : State W) → Reached ended s → ssp_wait os s ≡ ok (tt, t) → Reached ended t
    prints :
        (s t : State W) (fuel : ℕ)
        → Reached ended s
        → ended s.world < fuel
        → ssp_print os fuel s ≡ ok (tt, t)
        → Reached ended t

  abbrev pub Valid : State W → Type 0
  Valid s = (used : List Process) × Shows s used

  init-Valid :
      (s t : State W) → HasMemory os → s.ssp_id ≡ minus_one → ssp_init os s ≡ ok (tt, t) → Valid t
  init-Valid s t memory first runs =
      let (same, v) = ssp_init_lem os s memory first in
      ([], subst (λ t. Shows t []) (same_end same runs) v)

  asks-Valid :
      (s t : State W) (id : ℕ) (p : Process) (status : ℤ)
      → Valid s
      → get_elem? s.processes id ≡ some p
      → is_known p ≡ true
      → ssp_get_status os (pos id) s ≡ ok (status, t)
      → Valid t
  asks-Valid s t id p status (used, v) at_id known runs = (
    set used id (check_step os p (env s)).0,
    subst (λ t. Shows t (set used id (check_step os p (env s)).0))
        (same_end (ssp_get_status_lem os s id p at_id) runs)
        (set-Shows s used id p (check_step os p (env s)).0 (check_step os p (env s)).1 v at_id known
          known),
  )

  wait-Valid : (s t : State W) → Valid s → ssp_wait os s ≡ ok (tt, t) → Valid t
  wait-Valid s t (used, v) runs = elim (Option-cases (first_invalid ps)) [
    | inl fine ↦ (
      (walk (wait_step os) used (env s)).0,
      subst (λ t. Shows t (walk (wait_step os) used (env s)).0) (same_end (ends fine) runs)
          (walked-Shows (wait_step os) (λ e. refl) (λ p e h. h) s used (env s) v),
    )
    | inr (p, bad) ↦
        absurd (cc (stop_not_ok (waits_for ∙ ap (λ o. judged o (with s ps e)) bad) runs))
  ]
    where
      ps : List Process
      ps = (walk (wait_step os) s.processes (env s)).0

      e : W × List Line
      e = (walk (wait_step os) s.processes (env s)).1

      waits_for : ssp_wait os s ≡ judged (first_invalid ps) (with s ps e)
      waits_for = ssp_wait_lem os s (table-length s used v)

      ends :
          first_invalid ps ≡ none
          → ssp_wait os s
            ≡ ok (tt, walked (wait_step os) (λ e. refl) (λ p e h. h) s used v.free (env s))
      ends fine =
          waits_for
          ∙ ap (λ o. judged o (with s ps e)) fine
          ∙ ap (λ r. ok (tt, with s r.0 r.1))
              (walk-table (wait_step os) (λ e. refl) (λ p e h. h) s used (env s) v)

  create_fails :
      (s : State W) (argv : List (List ℕ)) (fd0 fd1 fd2 : ℤ)
      → is_negative (os.fork s.world).0 ≡ true
      → ssp_create os argv fd0 fd1 fd2 s
        ≡ stop (
          exit (os.errno (os.fork s.world).1),
          record (forked os s) {
            output = s.output ++ (perror "fork" (os.errno (os.fork s.world).1) ∷ []);
          },
        )
  unfolding ssp_create error_check exit_errno
  create_fails s argv fd0 fd1 fd2 failed = rw failed

  -- A program without a name: strdup(NULL).
  no_name :
      (s : State W) (used : List Process) (fd0 fd1 fd2 : ℤ)
      → HasMemory os
      → Shows s used
      → is_negative (os.fork s.world).0 ≡ false
      → same_int (os.fork s.world).0 (pos 0) ≡ false
      → ssp_create os [] fd0 fd1 fd2 s ≡ stop (null_pointer, opened os (forked os s) (length used))
  unfolding ssp_create error_check add_child
  no_name s used fd0 fd1 fd2 memory v forks parent = rw (
    forks,
    parent,
    ◌>>◌,
    ◌>>=◌,
    take_id_runs os (forked os s) used memory (Shows-env s used ((os.fork s.world).1, s.output) v),
  )

  create-Valid :
      (s t : State W) (argv : List (List ℕ)) (fd0 fd1 fd2 id : ℤ)
      → HasMemory os
      → ExecFails os
      → Valid s
      → ssp_create os argv fd0 fd1 fd2 s ≡ ok (id, t)
      → Valid t
  create-Valid s t argv fd0 fd1 fd2 id memory fails (used, v) runs =
      elim (Bool-cases (is_negative pid)) [
        | inl failed ↦ absurd (cc (stop_not_ok (create_fails s argv fd0 fd1 fd2 failed) runs))
        | inr forks ↦ elim (Bool-cases (same_int pid (pos 0))) [
          | inl child ↦
              absurd (
                cc
                  (stop_not_ok (create_child os s argv fd0 fd1 fd2 fails (is_zero pid child)) runs))
          | inr parent ↦ named argv forks parent runs
        ]
      ]
    where
      pid : ℤ
      pid = (os.fork s.world).0

      is_zero : (i : ℤ) → same_int i (pos 0) ≡ true → i ≡ pos 0
      is_zero (pos n) h = ap pos (ground arith)
      is_zero (negsuc n) h = absurd (cc h)

      named :
          (argv : List (List ℕ))
          → is_negative pid ≡ false
          → same_int pid (pos 0) ≡ false
          → ssp_create os argv fd0 fd1 fd2 s ≡ ok (id, t)
          → Valid t
      named [] forks parent runs =
          absurd (cc (stop_not_ok (no_name s used fd0 fd1 fd2 memory v forks parent) runs))
      named (name ∷ args) forks parent runs =
          let (same, w) = ssp_create_lem os s used name args fd0 fd1 fd2 memory v forks parent in
          (
            used ++ (named_process pid name minus_one ∷ []),
            subst (λ t. Shows t (used ++ (named_process pid name minus_one ∷ [])))
                (same_end same runs) w,
          )

  signal-Valid :
      (s t : State W) (id signum : ℤ)
      → Valid s
      → ssp_send_signal os id signum s ≡ ok (tt, t)
      → Valid t
  signal-Valid s t id signum (used, v) runs =
      let (e, same) = signal-Keeps os id signum s t tt runs in
      (used, subst (λ t. Shows t used) same (Shows-env s used e v))

  print-Valid :
      (ended : W → ℕ) (fuel : ℕ) (s t : State W)
      → HasMemory os
      → Reaps os ended
      → Valid s
      → ended s.world < fuel
      → ssp_print os fuel s ≡ ok (tt, t)
      → Valid t
  print-Valid ended fuel s t memory reaps (used, v) enough runs =
      let printed = ssp_print_lem os ended fuel s used memory reaps v enough in
      let listed = adopt_all used printed.reaped.taken in
      let rows = print_all os listed (env printed.reaped.after) in
      (rows.0, subst (λ t. Shows t rows.0) (same_end printed.returns runs) printed.updates)

  -- After ssp_init and any calls of ssp_create, ssp_get_status (for an id that a process has),
  -- ssp_send_signal, ssp_wait and ssp_print that have returned, the table is the processes with the
  -- ids 0, 1, ... up to ssp_id, each with a name and a pid that is not negative, and blank entries
  -- after them, and processes_size is its length; memory, execvp and waitpid behave as documented.
  pub Reached-Shows :
      (ended : W → ℕ) (s : State W)
      → HasMemory os
      → ExecFails os
      → Reaps os ended
      → Reached ended s
      → (used : List Process) × Shows s used
  Reached-Shows ended _ memory fails reaps (starts s t first runs) =
      init-Valid s t memory first runs
  Reached-Shows ended _ memory fails reaps (creates s t argv fd0 fd1 fd2 id before runs) =
      create-Valid s t argv fd0 fd1 fd2 id memory fails
        (Reached-Shows ended s memory fails reaps before) runs
  Reached-Shows ended _ memory fails reaps (asks s t id p status before at_id known runs) =
      asks-Valid s t id p status (Reached-Shows ended s memory fails reaps before) at_id known runs
  Reached-Shows ended _ memory fails reaps (signals s t id signum before runs) =
      signal-Valid s t id signum (Reached-Shows ended s memory fails reaps before) runs
  Reached-Shows ended _ memory fails reaps (waits s t before runs) =
      wait-Valid s t (Reached-Shows ended s memory fails reaps before) runs
  Reached-Shows ended _ memory fails reaps (prints s t fuel before enough runs) =
      print-Valid ended fuel s t memory reaps (Reached-Shows ended s memory fails reaps before)
        enough runs
