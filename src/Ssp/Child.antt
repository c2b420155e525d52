-- ===== src/Ssp/Child.antt =====
-- The child's side of ssp_create of ssp/src/ssp.c: descriptors, and the program.
use Prim.Native.String.{String}
use kernel_modules.Common.{
  ℕ, ◌≡◌, refl, ap, true, ◌&&◌, not, if◌then◌else◌, List, [], ◌∷◌, ◌++◌, map, Option, none, some, ℤ,
  pos, is_negative, same_int, at_most, codes, show_int, Outcome, ok, stop, ◌>>=◌, ◌>>◌,
  Option-cases, Outcome-cases, Bool-cases, inl, inr,
}
use kernel_modules.Ssp.{
  Entry, System, State, Reason, SspCall, call, exit, executed, perror, quit, error_check,
  exit_errno,
}
use kernel_modules.Ssp.Spawn.{atoi, run_child, ssp_create, set_fds, close_entries, close_fds}

module _ {W : Type 0} (os : System W) where
  -- A system call whose result must not be negative, with its name for perror.
  abbrev pub Checked : Type 0
  Checked = String × (W → ℤ × W)

  -- System calls, one after the other: the world that they leave, or the name of the first one that
  -- fails and the world after it.
  abbrev pub perform : List Checked → W → Outcome (String × W) W
  perform [] w = ok w
  perform ((message, f) ∷ rest) w =
      let later = perform rest (f w).1 in
      if is_negative (f w).0 then stop (message, (f w).1) else later

  -- The descriptors 0, 1 and 2 become the given ones.
  abbrev pub redirections : ℤ → ℤ → ℤ → List Checked
  redirections fd0 fd1 fd2 =
      ("dup2", os.dup2 fd0 (pos 0))
      ∷ ("dup2", os.dup2 fd1 (pos 1))
      ∷ ("dup2", os.dup2 fd2 (pos 2))
      ∷ []

  -- The descriptors that the entries of the directory name: those above 2, but not its own.
  abbrev pub to_close : ℤ → List Entry → List ℤ
  to_close dir_fd [] = []
  to_close dir_fd (entry ∷ rest) =
      let later = to_close dir_fd rest in
      if entry.is_link
        && not (at_most (atoi entry.d_name) 2)
        && not (same_int (atoi entry.d_name) dir_fd)
      then atoi entry.d_name ∷ later
      else later

  abbrev pub closing : ℤ → Checked
  closing fd = ("close", os.close fd)

  abbrev pub closings : ℤ → List Entry → List Checked
  closings dir_fd entries =
      map closing (to_close dir_fd entries) ++ (("close fd dir", os.closedir dir_fd) ∷ [])

  -- The open of /proc/<pid>/fd.
  abbrev pub fd_dir : W → ℤ × W
  fd_dir w = os.open_file (codes "/proc/" ++ show_int (pos (os.getpid w)) ++ codes "/fd") w

  -- How the child ends: the call that failed and the world after it, or the world in which the
  -- program has replaced it.
  abbrev pub program : List (List ℕ) → W → Outcome (String × W) W
  program argv w = elim (os.execvp argv w).0 [
    | none ↦ ok (os.execvp argv w).1
    | some value ↦ stop ("execvp", (os.execvp argv w).1)
  ]

  abbrev pub then_program : List (List ℕ) → Outcome (String × W) W → Outcome (String × W) W
  then_program argv o = elim o [ stop e ↦ stop e | ok w ↦ program argv w ]

  abbrev pub closed : ℤ → Option (List Entry) → W → Outcome (String × W) W
  closed dir_fd dir w = elim dir [
    | none ↦ stop ("fd open dir", w)
    | some entries ↦ perform (closings dir_fd entries) w
  ]

  abbrev pub then_closed : Outcome (String × W) W → Outcome (String × W) W
  then_closed o = elim o [
    | stop e ↦ stop e
    | ok w ↦
        let (dir_fd, v) = fd_dir w in
        closed dir_fd (os.fdopendir dir_fd v).0 (os.fdopendir dir_fd v).1
  ]

  unfoldable pub child_end : List (List ℕ) → ℤ → ℤ → ℤ → W → Outcome (String × W) W
  child_end argv fd0 fd1 fd2 w =
      then_program argv (then_closed (perform (redirections fd0 fd1 fd2) w))

  -- The end of the run from `s`: an exit with the errno of a perror, or the program, with no output.
  abbrev pub child_stop : State W → Outcome (String × W) W → Reason × State W
  child_stop s (stop (message, w)) = (
    exit (os.errno w),
    record s { world = w; output = s.output ++ (perror message (os.errno w) ∷ []) },
  )
  child_stop s (ok w) = (executed, record s { world = w })

  -- A call that does such system calls and nothing else.
  abbrev pub returned :
      State W → Outcome (String × W) W → Outcome (Reason × State W) (Unit {0} × State W)
  returned s (stop e) = stop (child_stop s (stop e))
  returned s (ok w) = ok (tt, record s { world = w })

  abbrev Performs : SspCall W (Unit {0}) → List Checked → Type 0
  Performs c calls = (s : State W) → c s ≡ returned s (perform calls s.world)

  one_call :
      (f : W → ℤ × W) (message : String)
      → Performs (call f >>= (λ r. error_check os r message)) ((message, f) ∷ [])
  unfolding error_check exit_errno
  one_call f message s = elim (Bool-cases (is_negative (f s.world).0)) [
    | inl bad ↦ rw (◌>>=◌, ◌>>◌, bad) refl
    | inr good ↦ rw (◌>>=◌, ◌>>◌, good) refl
  ]

  call_then :
      (f : W → ℤ × W) (message : String) (k : SspCall W (Unit {0})) (rest : List Checked)
      → Performs k rest
      → Performs (call f >>= (λ r. error_check os r message >> k)) ((message, f) ∷ rest)
  unfolding error_check exit_errno
  call_then f message k rest h s = elim (Bool-cases (is_negative (f s.world).0)) [
    | inl bad ↦ rw (◌>>=◌, ◌>>◌, bad) refl
    | inr good ↦ rw (◌>>=◌, ◌>>◌, good) (h (record s { world = (f s.world).1 }))
  ]

  perform_then :
      (k : SspCall W (Unit {0})) (calls rest : List Checked) (c : SspCall W (Unit {0}))
      → Performs c calls
      → Performs k rest
      → Performs (c >> k) (calls ++ rest)
  perform_then k calls rest c h g s = rw (◌>>◌, ◌>>=◌, h s) (after calls s)
    where
      after :
          (calls : List Checked) (s : State W)
          → (elim (returned s (perform calls s.world)) [ ok (a, t) ↦ k t | stop e ↦ stop e ])
            ≡ returned s (perform (calls ++ rest) s.world)
      after [] s = g s
      after ((message, f) ∷ more) s = elim (Bool-cases (is_negative (f s.world).0)) [
        | inl bad ↦ rw bad refl
        | inr good ↦ rw good (after more (record s { world = (f s.world).1 }))
      ]

  set_fds-Performs :
      (fd0 fd1 fd2 : ℤ) → Performs (set_fds os fd0 fd1 fd2) (redirections fd0 fd1 fd2)
  unfolding set_fds
  set_fds-Performs fd0 fd1 fd2 =
      call_then (os.dup2 fd0 (pos 0)) "dup2" _
        (("dup2", os.dup2 fd1 (pos 1)) ∷ ("dup2", os.dup2 fd2 (pos 2)) ∷ [])
        (call_then (os.dup2 fd1 (pos 1)) "dup2" _ (("dup2", os.dup2 fd2 (pos 2)) ∷ [])
          (one_call (os.dup2 fd2 (pos 2)) "dup2"))

  close_entries-Performs :
      (dir_fd : ℤ) (entries : List Entry)
      → Performs (close_entries os dir_fd entries) (map closing (to_close dir_fd entries))
  unfolding close_entries
  close_entries-Performs dir_fd [] s = refl
  close_entries-Performs dir_fd (entry ∷ rest) s =
      let fd = atoi entry.d_name in
      elim (Bool-cases (entry.is_link && not (at_most fd 2) && not (same_int fd dir_fd))) [
        | inr skipped ↦ rw skipped (close_entries-Performs dir_fd rest s)
        | inl closes ↦ rw closes (
            call_then (os.close fd) "close" (close_entries os dir_fd rest)
              (map closing (to_close dir_fd rest)) (close_entries-Performs dir_fd rest) s)
      ]

  close_fds_runs : (s : State W) → close_fds os s ≡ returned s (then_closed (ok s.world))
  unfolding close_fds exit_errno
  close_fds_runs s = elim (Option-cases (os.fdopendir dir_fd w).0) [
    | inl h ↦ rw (◌>>=◌, ◌>>◌, h) refl
    | inr (entries, h) ↦
        rw (◌>>=◌, h)
          (perform_then _ (map closing (to_close dir_fd entries))
            (("close fd dir", os.closedir dir_fd) ∷ []) (close_entries os dir_fd entries)
            (close_entries-Performs dir_fd entries) (one_call (os.closedir dir_fd) "close fd dir")
            (record s { world = (os.fdopendir dir_fd w).1 }))
  ]
    where
      dir_fd : ℤ
      dir_fd = (fd_dir s.world).0

      w : W
      w = (fd_dir s.world).1

  -- The documented result of execvp: it returns only when it fails, with -1.
  abbrev pub ExecFails : Type 0
  ExecFails =
      (args : List (List ℕ)) (w : W) (value : ℤ)
      → (os.execvp args w).0 ≡ some value
      → is_negative value ≡ true

  exec_runs :
      (argv : List (List ℕ)) (s : State W)
      → ExecFails
      → let c : SspCall W (Unit {0}) = call (os.execvp argv) >>= λ r. elim r [
        | none ↦ quit executed
        | some value ↦ error_check os value "execvp"
      ] in
        c s ≡ stop (child_stop s (program argv s.world))
  unfolding error_check exit_errno
  exec_runs argv s fails = elim (Option-cases (os.execvp argv s.world).0) [
    | inl h ↦ rw (program, ◌>>=◌, h) refl
    | inr (value, h) ↦ rw (program, ◌>>=◌, ◌>>◌, h, fails argv s.world value h) refl
  ]

  run_child_lem :
      (argv : List (List ℕ)) (fd0 fd1 fd2 : ℤ) (s : State W)
      → ExecFails
      → run_child os argv fd0 fd1 fd2 s ≡ stop (child_stop s (child_end argv fd0 fd1 fd2 s.world))
  unfolding run_child child_end
  run_child_lem argv fd0 fd1 fd2 s fails =
      elim (Outcome-cases (perform (redirections fd0 fd1 fd2) s.world)) [
        | inl (e, h) ↦ rw (◌>>◌, ◌>>=◌, set_fds-Performs fd0 fd1 fd2 s, h) refl
        | inr (w, h) ↦ elim (Outcome-cases (then_closed (ok w))) [
          | inl (e, i) ↦
              rw
                (
                  ◌>>◌,
                  ◌>>=◌,
                  set_fds-Performs fd0 fd1 fd2 s,
                  h,
                  close_fds_runs (record s { world = w }),
                  i,
                )
                refl
          | inr (v, i) ↦
              rw
                (
                  ◌>>◌,
                  ◌>>=◌,
                  set_fds-Performs fd0 fd1 fd2 s,
                  h,
                  close_fds_runs (record s { world = w }),
                  i,
                )
                (exec_runs argv (record s { world = v }) fails)
        ]
      ]

  -- x
  pub create_child :
      (s : State W) (argv : List (List ℕ)) (fd0 fd1 fd2 : ℤ)
      → ExecFails
      → (os.fork s.world).0 ≡ pos 0
      → let child = record s { world = (os.fork s.world).1 } in
        ssp_create os argv fd0 fd1 fd2 s
        ≡ stop (child_stop child (child_end argv fd0 fd1 fd2 child.world))
  unfolding ssp_create error_check
  create_child s argv fd0 fd1 fd2 fails child =
      rw
        (
          ap is_negative child,
          ap (λ r. same_int r (pos 0)) child,
          ◌>>◌,
          ◌>>=◌,
          run_child_lem argv fd0 fd1 fd2 (record s { world = (os.fork s.world).1 }) fails,
        )
        refl
