-- ===== src/Ssp/Wait.antt =====
-- ssp_wait of ssp/src/ssp.c against a walk over the list of processes.
pub mod Stale
use kernel_modules.Common.{
  ℕ, ◌≡◌, refl, sym, Bool, false, ◌&&◌, ◌||◌, not, if◌then◌else◌, List, [], ◌∷◌, ◌++◌, append_assoc,
  Option, none, some, length, length-append, get_elem?, get_elem?-middle, set_same, ℤ, pos,
  minus_one, is_negative, same_int, at_most, codes, show_int, Outcome, ok, stop, ◌>>=◌, ◌>>◌,
  Bool-cases, inl, inr,
}
use mathlib.Core.Path.{subst}
use kernel_modules.Ssp.{Process, Waited, System, Line, State, Reason, exit, err, for_each}
use kernel_modules.Ssp.Status.{wait_one, check_status, ssp_wait}
use kernel_modules.Ssp.Table.{with, env, walk, stepped, process_runs, for_each-walk, length-walk}
use kernel_modules.Ssp.Decode.{decoded, exit_runs}

-- A process with a status that a process that has ended cannot have.
abbrev pub is_invalid : Process → Bool
is_invalid p =
    not (same_int p.pid minus_one) && (is_negative p.status || not (at_most p.status 255))

unfoldable pub first_invalid : List Process → Option Process
first_invalid [] = none
first_invalid (p ∷ rest) = let later = first_invalid rest in if is_invalid p then some p else later

module _ {W : Type 0} where
  abbrev complain : Process → State W → State W
  complain p s = record s {
    output =
        s.output
        ++ (err (
              codes "Process "
              ++ show_int p.pid
              ++ codes " has an invalid status: "
              ++ show_int p.status)
            ∷ []);
  }

  -- The end of ssp_wait, with the first process that has an invalid status.
  abbrev pub judged : Option Process → State W → Outcome (Reason × State W) (Unit {0} × State W)
  judged none s = ok (tt, s)
  judged (some p) s = stop (exit 1, complain p s)

module _ {W : Type 0} (os : System W) where
  -- The status of a process and the world after the wait for it.
  abbrev pub waited : Process → W → ℤ
  waited p w =
      if same_int p.pid minus_one
      then p.status
      else if same_int (os.waitpid p.pid false w).0.result p.pid
      then decoded (os.waitpid p.pid false w).0.word p.status
      else p.status

  abbrev pub wait_step : Process → W × List Line → Process × (W × List Line)
  wait_step p (w, lines) = (
    record p { status = waited p w },
    (if same_int p.pid minus_one then w else (os.waitpid p.pid false w).1, lines),
  )

  wait_runs :
      (s : State W) (id : ℕ) (p : Process)
      → get_elem? s.processes id ≡ some p
      → wait_one os (pos id) s ≡ ok (tt, stepped wait_step s id p)
  unfolding wait_one
  wait_runs s id p e =
      rw (process_runs s id p e, ◌>>=◌)
        (elim (Bool-cases (same_int p.pid minus_one)) [
          | inl h ↦ rw (h, set_same s.processes id p e) refl
          | inr h ↦ rw h (elim (Bool-cases (same_int r.0.result p.pid)) [
            | inl k ↦ rw (k, ◌>>=◌) (exit_runs (record s { world = r.1 }) id p r.0.word e)
            | inr k ↦ rw (k, ◌>>=◌, set_same s.processes id p e) refl
          ])
        ])
    where
      r : Waited × W
      r = os.waitpid p.pid false s.world

  check_passes :
      (s : State W) (id : ℕ) (p : Process)
      → get_elem? s.processes id ≡ some p
      → check_status os (pos id) s
        ≡ (if is_invalid p then stop (exit 1, complain p s) else ok (tt, s))
  unfolding check_status
  check_passes s id p e =
      rw (process_runs s id p e, ◌>>=◌)
        (elim (Bool-cases (is_invalid p)) [ inl h ↦ rw h refl | inr h ↦ rw h refl ])

  check_all :
      (s : State W) (before rest : List Process)
      → for_each
          (length rest)
          (length before)
          (λ i. check_status os (pos i))
          (record s { processes = before ++ rest })
        ≡ judged (first_invalid rest) (record s { processes = before ++ rest })
  unfolding for_each first_invalid
  check_all s before [] = refl
  check_all s before (p ∷ rest) =
      rw
        (
          ◌>>◌,
          ◌>>=◌,
          check_passes (record s { processes = before ++ (p ∷ rest) }) (length before) p
              (get_elem?-middle before p rest),
        )
        (elim (Bool-cases (is_invalid p)) [
          | inl h ↦ rw h refl
          | inr h ↦
              rw (h, sym (append_assoc before (p ∷ []) rest))
                (subst
                  (λ n.
                    for_each (length rest) n (λ i. check_status os (pos i))
                      (record s { processes = (before ++ (p ∷ [])) ++ rest })
                    ≡ judged (first_invalid rest)
                        (record s { processes = (before ++ (p ∷ [])) ++ rest }))
                  (length-append before (p ∷ [])) (check_all s (before ++ (p ∷ [])) rest))
        ])

  -- ssp_wait on a table of processes_size entries is a walk over the list of its processes, which
  -- waits for each with a pid and decodes the word of one that waitpid gives back, and then
  -- returns, or, if a process with a pid has a status below 0 or above 255, reports the first one
  -- and exits with 1.
  pub ssp_wait_lem :
      (s : State W)
      → s.processes_size ≡ length s.processes
      → let (ps, e) = walk wait_step s.processes (env s) in
        ssp_wait os s ≡ judged (first_invalid ps) (with s ps e)
  unfolding ssp_wait
  ssp_wait_lem s size =
      subst
        (λ n.
          (do for_each n 0 (λ i. wait_one os (pos i)); for_each n 0 (λ i. check_status os (pos i)))
            s
          ≡ judged (first_invalid ps) (with s ps e))
        (sym size)
        (rw
          (
            ◌>>◌,
            ◌>>=◌,
            for_each-walk (λ i. wait_one os (pos i)) wait_step (λ s i p h. wait_runs s i p h) s,
            sym (length-walk wait_step s.processes (env s)),
          )
          (check_all (with s ps e) [] ps))
    where
      ps : List Process
      ps = (walk wait_step s.processes (env s)).0

      e : W × List Line
      e = (walk wait_step s.processes (env s)).1
