-- ===== src/Ssp/Decode.antt =====
-- The status that ssp/src/ssp.c keeps of a process, against the ways in which a process can change.
use kernel_modules.Common.{
  ℕ, ◌+◌, ◌*◌, ◌≡◌, refl, Bool, true, false, ◌&&◌, ltb, if◌then◌else◌, List, [], ◌∷◌, ◌++◌, some,
  get_elem?, get_elem?-set, set, set_same, ℤ, pos, is_negative, ok, ◌>>=◌, ◌>>◌, ret, arith,
  Bool-cases, inl, inr,
}
use kernel_modules.Ssp.{Process, Waited, System, Line, State, perror, ssp_set_stat}
use kernel_modules.Ssp.Status.{
  wifexited, wexitstatus, wifsignaled, wtermsig, is_positive, ssp_exit, ssp_check_exit,
  ssp_get_status,
}
use kernel_modules.Ssp.Table.{env, put, stepped, process_runs, change_runs}

-- What a child has done, and the word that says so: its exit, its death by a signal, with or
-- without a core, a stop, or that it goes on.
pub data Ending : Type 0 where
  exited : ℕ → Ending
  killed : ℕ → Bool → Ending
  stopped : ℕ → Ending
  continued : Ending

abbrev pub word_of : Ending → ℕ
word_of (exited code) = code * 256
word_of (killed signal core) = signal + (if core then 128 else 0)
word_of (stopped signal) = signal * 256 + 127
word_of continued = 65535

abbrev pub is_ending : Ending → Bool
is_ending (exited code) = ltb code 256
is_ending (killed signal core) = ltb 0 signal && ltb signal 127
is_ending (stopped signal) = true
is_ending continued = true

-- The status of a shell: the exit code, or 128 and the signal; of one that has not ended, the old.
abbrev pub shell_status : Ending → ℤ → ℤ
shell_status (exited code) old = pos code
shell_status (killed signal core) old = pos (signal + 128)
shell_status (stopped signal) old = old
shell_status continued old = old

abbrev pub decoded : ℕ → ℤ → ℤ
decoded word old =
    if wifexited word
    then pos (wexitstatus word)
    else if wifsignaled word
    then pos (wtermsig word + 128)
    else old

decoded-word_of :
    (e : Ending) (old : ℤ) → is_ending e ≡ true → decoded (word_of e) old ≡ shell_status e old
decoded-word_of (exited code) old h = ground arith
decoded-word_of (killed signal true) old h = ground arith
decoded-word_of (killed signal false) old h = ground arith
decoded-word_of (stopped signal) old h = ground arith
decoded-word_of continued old h = refl

module _ {W : Type 0} where
  pub exit_runs :
      (s : State W) (id : ℕ) (p : Process) (word : ℕ)
      → get_elem? s.processes id ≡ some p
      → ssp_exit (pos id) word s ≡ ok (tt, put s id (record p { status = decoded word p.status }))
  unfolding ssp_exit ssp_set_stat
  exit_runs s id p word e = elim (Bool-cases (wifexited word)) [
    | inl h ↦ rw h (change_runs s id p (λ p. record p { status = pos (wexitstatus word) }) e)
    | inr h ↦ elim (Bool-cases (wifsignaled word)) [
      | inl k ↦
          rw (h, k) (change_runs s id p (λ p. record p { status = pos (wtermsig word + 128) }) e)
      | inr k ↦ rw (h, k, set_same s.processes id p e) refl
    ]
  ]

  -- From the word that waitpid stores for a child, ssp_exit gives back the exit code of one that
  -- exited, 128 and the signal of one that a signal killed, with or without a core, and leaves the
  -- status of one that stopped or goes on; nothing else changes.
  pub ssp_exit_lem :
      (s : State W) (id : ℕ) (p : Process) (e : Ending)
      → get_elem? s.processes id ≡ some p
      → is_ending e ≡ true
      → ssp_exit (pos id) (word_of e) s
        ≡ ok (tt, put s id (record p { status = shell_status e p.status }))
  ssp_exit_lem s id p e at_id h =
      rw (decoded-word_of e p.status h) at (exit_runs s id p (word_of e) at_id)

module _ {W : Type 0} (os : System W) where
  -- What ssp_check_exit does to a process and to its surroundings.
  abbrev pub polled : Process → W → ℤ
  polled p w =
      if is_positive (os.waitpid p.pid true w).0.result
      then decoded (os.waitpid p.pid true w).0.word p.status
      else p.status

  abbrev pub complaint : Process → W → List Line → List Line
  complaint p w lines =
      if is_negative (os.waitpid p.pid true w).0.result
      then lines ++ (perror "check exit" (os.errno (os.waitpid p.pid true w).1) ∷ [])
      else lines

  abbrev pub check_step : Process → W × List Line → Process × (W × List Line)
  check_step p (w, lines) =
      (record p { status = polled p w }, ((os.waitpid p.pid true w).1, complaint p w lines))

  pub check_exit_runs :
      (s : State W) (id : ℕ) (p : Process)
      → get_elem? s.processes id ≡ some p
      → ssp_check_exit os (pos id) s ≡ ok (tt, stepped check_step s id p)
  unfolding ssp_check_exit
  check_exit_runs s id p e =
      rw (process_runs s id p e, ◌>>=◌)
        (elim (Bool-cases (is_negative r.0.result)) [
          | inl h ↦
              rw (h, ◌>>◌, ◌>>=◌) (decodes (s.output ++ (perror "check exit" (os.errno r.1) ∷ [])))
          | inr h ↦ rw (h, ◌>>◌, ◌>>=◌) (decodes s.output)
        ])
    where
      r : Waited × W
      r = os.waitpid p.pid true s.world

      decodes :
          (lines : List Line)
          → (if is_positive r.0.result then ssp_exit (pos id) r.0.word else ret tt)
              (record s { world = r.1; output = lines })
            ≡ ok (
              tt,
              record s {
                processes = set s.processes id (record p { status = polled p s.world });
                world = r.1;
                output = lines;
              },
            )
      decodes lines = elim (Bool-cases (is_positive r.0.result)) [
        | inl h ↦ rw h (exit_runs (record s { world = r.1; output = lines }) id p r.0.word e)
        | inr h ↦ rw (h, set_same s.processes id p e) refl
      ]

  -- ssp_get_status of an index of the table polls the pid there once, stores and returns the
  -- decoded status if waitpid gives a child, returns the old status otherwise, and reports an error
  -- of waitpid; no other entry changes.
  pub ssp_get_status_lem :
      (s : State W) (id : ℕ) (p : Process)
      → get_elem? s.processes id ≡ some p
      → ssp_get_status os (pos id) s ≡ ok (polled p s.world, stepped check_step s id p)
  unfolding ssp_get_status
  ssp_get_status_lem s id p e = rw (
    check_exit_runs s id p e,
    ◌>>◌,
    ◌>>=◌,
    process_runs (stepped check_step s id p) id (check_step p (env s)).0
        (get_elem?-set s.processes id p (check_step p (env s)).0 e),
  )
