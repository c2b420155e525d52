-- ===== src/Ssp/Printed.antt =====
-- ssp_print of ssp/src/ssp.c: the children are taken, then one row is printed for each process.
use kernel_modules.Common.{
  ℕ, ◌<◌, ◌≡◌, refl, ap, ◌∙◌, true, if◌then◌else◌, List, [], ◌∷◌, ◌++◌, some, get_elem?,
  get_elem?-set, set_same, pos, is_negative, codes, show_int, ok, ◌>>=◌, ◌>>◌, Bool-cases, inl, inr,
}
use kernel_modules.Ssp.{Process, System, Line, out, State, print, for_each}
use kernel_modules.Ssp.Print.{
  columns, longest_proc_name, print_header, ssp_proc_print, print_one, ssp_print,
}
use kernel_modules.Ssp.Table.{with, env, walk, stepped, process_runs, for_each-walk_good, all}
use kernel_modules.Ssp.Shows.{Shows, HasMemory, table-length, is_known}
use kernel_modules.Ssp.Decode.{check_step, check_exit_runs}
use kernel_modules.Ssp.Unknown.{Reaps, Reaped, unknown_lem, adopt_all}
use kernel_modules.Ssp.Walks.{walk-table, walked, walked-Shows}
use kernel_modules.Ssp.Rows.{
  name_of, columns_lem, text_row, name_runs, is_ready, known-ready, widest, longest_proc_name_runs,
}

-- The row of a process.
abbrev pub row : ℕ → Process → List ℕ
row width p = text_row width (show_int p.pid) (name_of p.name) (show_int p.status)

abbrev pub header : ℕ → List ℕ
header width = text_row width (codes "PID") (codes "CMD") (codes "STATUS")

module _ {W : Type 0} (os : System W) where
  -- What the loop of ssp_print does with a process.
  abbrev pub row_step : ℕ → Process → W × List Line → Process × (W × List Line)
  row_step width p (w, lines) = if is_negative p.pid then (p, (w, lines)) else (
    (check_step os p (w, lines)).0,
    (
      (check_step os p (w, lines)).1.0,
      (check_step os p (w, lines)).1.1 ++ (out (row width (check_step os p (w, lines)).0) ∷ []),
    ),
  )

  print_runs :
      (width : ℕ) (s : State W) (id : ℕ) (p : Process)
      → get_elem? s.processes id ≡ some p
      → is_ready p ≡ true
      → print_one os width (pos id) s ≡ ok (tt, stepped (row_step width) s id p)
  unfolding print_one ssp_proc_print
  print_runs width s id p e ready =
      rw (process_runs s id p e, ◌>>=◌)
        (elim (Bool-cases (is_negative p.pid)) [
          | inl h ↦ rw (h, set_same s.processes id p e) refl
          | inr h ↦
              rw
                (
                  h,
                  ◌>>◌,
                  ◌>>=◌,
                  check_exit_runs os s id p e,
                  process_runs seen id (check_step os p (env s)).0
                      (get_elem?-set s.processes id p (check_step os p (env s)).0 e),
                )
                (name_runs p.name
                    (λ name. print (
                      out (
                        columns width (show_int p.pid) name
                          (show_int (check_step os p (env s)).0.status))))
                    seen (rw h at ready)
                  ∙ ap (λ line. print (out line) seen)
                      (columns_lem width (show_int p.pid) (name_of p.name)
                        (show_int (check_step os p (env s)).0.status)))
        ])
    where
      seen : State W
      seen = stepped (check_step os) s id p

  row_keeps :
      (width : ℕ) (p : Process) (e : W × List Line)
      → is_known p ≡ true
      → is_known (row_step width p e).0 ≡ true
  row_keeps width p e h = elim (Bool-cases (is_negative p.pid)) [ inl k ↦ rw k h | inr k ↦ rw k h ]

  -- The rows for the processes `listed`, and what is left of the surroundings.
  abbrev pub print_all : List Process → W × List Line → List Process × (W × List Line)
  print_all listed (w, lines) =
      walk (row_step (widest listed 3)) listed (w, lines ++ (out (header (widest listed 3)) ∷ []))

  after_rows :
      (s : State W) (used : List Process)
      → Shows s used
      → let (ps, e) = print_all used (env s) in
        (t : State W) × ((do
          width ← longest_proc_name
          print_header width
          size ← (λ s. ok (s.processes_size, s))
          for_each size 0 (λ i. print_one os width (pos i)))
            s
          ≡ ok (tt, t))
        × Shows t ps
        × (env t ≡ e)
  unfolding print_header
  after_rows s used v = (
    t,
    rw
        (
          longest_proc_name_runs s used v,
          ◌>>=◌,
          ◌>>◌,
          columns_lem width (codes "PID") (codes "CMD") (codes "STATUS"),
        )
        (ap (λ n. for_each n 0 (λ i. print_one os width (pos i)) headed) (table-length s used v)
          ∙ for_each-walk_good (λ i. print_one os width (pos i)) is_ready (row_step width)
              (λ s i p e r. print_runs width s i p e r) headed [] s.processes (env headed)
              (ap (all is_ready) v.table ∙ known-ready used v.free v.known)
          ∙ ap (λ r. ok (tt, with headed r.0 r.1))
              (walk-table (row_step width) (λ e. refl) (row_keeps width) s used (env headed) v)),
    walked-Shows (row_step width) (λ e. refl) (row_keeps width) s used (env headed) v,
    refl,
  )
    where
      width : ℕ
      width = widest used 3

      headed : State W
      headed = record s { output = s.output ++ (out (header width) ∷ []) }

      t : State W
      t = walked (row_step width) (λ e. refl) (row_keeps width) s used v.free (env headed)

  -- The result of ssp_print.
  pub record Printed (s : State W) (used : List Process) (fuel : ℕ) : Type 0 where
    pub reaped : Reaped os s used fuel
    pub end : State W
    pub returns : ssp_print os fuel s ≡ ok (tt, end)
    pub updates : Shows end (print_all (adopt_all used reaped.taken) (env reaped.after)).0
    pub prints : env end ≡ (print_all (adopt_all used reaped.taken) (env reaped.after)).1

  -- While there is memory and waitpid(-1, WNOHANG) behaves as documented, ssp_print returns for as
  -- many rounds of ssp_unknown as children have ended, and one more: each child that has ended is
  -- taken; one that the list has not is added with its status and one that it has keeps its old
  -- status; then one header and one row for each process are printed, in their order, after a poll
  -- of each, in a second column as wide as the longest name.
  pub ssp_print_lem :
      (ended : W → ℕ) (fuel : ℕ) (s : State W) (used : List Process)
      → HasMemory os
      → Reaps os ended
      → Shows s used
      → ended s.world < fuel
      → Printed s used fuel
  unfolding ssp_print
  ssp_print_lem ended fuel s used memory reaps v h =
      let reaped = unknown_lem os ended memory reaps fuel s used v h in
      let (t, runs, shows, same) =
        after_rows reaped.after (adopt_all used reaped.taken) reaped.shows in
      record {
        reaped = reaped;
        end = t;
        returns = rw (reaped.runs, ◌>>◌, ◌>>=◌) runs;
        updates = shows;
        prints = same;
      }
