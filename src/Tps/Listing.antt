-- ===== src/Tps/Listing.antt =====
-- The list that tps/src/main.c prints, for a /proc as it is documented.
use kernel_modules.Common.{
  ℕ, suc, ◌+◌, ◌-◌, ◌≤◌, ◌≡◌, refl, sym, ap, ◌∙◌, Bool, true, false, ◌&&◌, ◌||◌, not, ltb, List, [],
  ◌∷◌, ◌++◌, map, some, length, drop, replicate, codes, space, append_assoc, append-nil, arith, ℤ,
  pos, minus_one, same_int, ok, stop, then_runs, ◌>>=◌, ◌>>◌,
}
use mathlib.Core.Path.{subst}
use kernel_modules.Tps.{
  Files, Line, out, State, negative_length, TpsCall, max_buff, is_numeric, get_first_line,
  string_at, print_proc_name, output_process, show_status, pid_path, is_directory, show_entry,
  show_entries, main,
}
use kernel_modules.Tps.Status.{is_clean, starts_spaceless, name_text, status_line}

-- The line of a process: the pid in five columns, and the name.
abbrev pub row : List ℕ → List ℕ → Line
row pid name = out (replicate (5 - length pid) space ++ pid ++ (space ∷ []) ++ name)

abbrev pub row_of : List ℕ × List ℕ → Line
row_of (pid, name) = row pid name

module _ {W : Type 0} where
  -- A run that returns with some more lines, each of which wrote one byte past an array.
  pub record Prints {A : Type 0} (c : TpsCall W A) (a : A) (s : State W) (lines : List Line)
      (rows : ℕ) : Type 0 where
    pub after : State W
    pub runs : c s ≡ ok (a, after)
    pub prints : after.output ≡ s.output ++ lines
    pub overrun : after.overruns ≡ s.overruns + rows

-- The calls of the loop, between two of which no status file is open. `Idle` are the worlds in which
-- none is: a stat does not change that, and a file that is opened, read and closed is closed again.
pub record IsSteady {W : Type 0} (files : Files W) (Idle : W → Type 0) : Type 0 where
  pub after_opendir : (w : W) → Idle w → Idle (files.opendir w).1
  pub after_stat : (path : List ℕ) (w : W) → Idle w → Idle (files.stat path w).1
  pub after_close :
      (path : List ℕ) (w : W)
      → Idle w
      → Idle
          (files.close
            (files.open_file path w).0
            (files.read (files.open_file path w).0 max_buff (files.open_file path w).1).1).1

module _ {W : Type 0} (files : Files W) (Idle : W → Type 0) where
  -- An entry of /proc that is no process.
  pub record IsOther (d_name : List ℕ) : Type 0 where
    pub other :
        (w : W)
        → Idle w
        → (is_directory (files.stat (pid_path d_name) w).0 && is_numeric d_name) ≡ false

  -- The status file of a process, opened when no other one is open, has the contents `bytes`, which
  -- fit the array: the read on the new descriptor gives them, and then it closes.
  pub record HasStatus (pid bytes : List ℕ) : Type 0 where
    pub numeric : is_numeric pid ≡ true
    pub fits : length bytes ≤ max_buff
    pub directory : (w : W) → Idle w → (files.stat (pid_path pid) w).0 ≡ some true
    pub opens :
        (w : W)
        → Idle w
        → same_int (files.open_file (pid_path pid ++ codes "/status") w).0 minus_one ≡ false
    pub reads :
        (w : W)
        → Idle w
        → let (fd, v) = files.open_file (pid_path pid ++ codes "/status") w in
          (files.read fd max_buff v).0 ≡ some bytes
    pub closes :
        (w : W)
        → Idle w
        → let (fd, v) = files.open_file (pid_path pid ++ codes "/status") w in
          same_int (files.close fd (files.read fd max_buff v).1).0 minus_one ≡ false

  -- The directory of a process, whose status file starts with its name.
  pub record IsProcess (pid name : List ℕ) : Type 0 where
    pub rest : List ℕ
    pub clean : is_clean name ≡ true
    pub spaceless : starts_spaceless name ≡ true
    pub status : HasStatus pid (codes "Name:\t" ++ name ++ (0x0a ∷ rest))

  -- The names of the entries, and those of them that are processes, each with its name.
  pub data Listed : List (List ℕ) → List (List ℕ × List ℕ) → Type 0 where
    end : Listed [] []
    skips :
        (d_name : List ℕ) (names : List (List ℕ)) (ps : List (List ℕ × List ℕ))
        → IsOther d_name
        → Listed names ps
        → Listed (d_name ∷ names) ps
    shows :
        (pid name : List ℕ) (names : List (List ℕ)) (ps : List (List ℕ × List ℕ))
        → IsProcess pid name
        → ltb 5 (length pid) ≡ false
        → Listed names ps
        → Listed (pid ∷ names) ((pid, name) ∷ ps)

  -- Such a run that also leaves no status file open.
  abbrev pub PrintsIdle : TpsCall W (Unit {0}) → State W → List Line → ℕ → Type 0
  PrintsIdle c s lines rows = (p : Prints c tt s lines rows) × Idle p.after.world

  skip_entry :
      (d_name : List ℕ) (s : State W)
      → Idle s.world
      → IsOther d_name
      → IsSteady files Idle
      → PrintsIdle (show_entry files d_name) s [] 0
  unfolding show_entry
  skip_entry d_name s idle v steady = (
    record {
      after = record s { world = (files.stat (pid_path d_name) s.world).1 };
      runs =
          rw
            (skipped (is_directory (files.stat (pid_path d_name) s.world).0) (is_numeric d_name)
              (v.other s.world idle))
            refl;
      prints = sym (append-nil s.output);
      overrun = omega arith;
    },
    steady.after_stat (pid_path d_name) s.world idle,
  )
    where
      skipped : (a b : Bool) → (a && b) ≡ false → (not a || not b) ≡ true
      skipped a b h = ground arith

  pub print_process :
      (pid name rest : List ℕ) (s : State W)
      → ltb 5 (length pid) ≡ false
      → starts_spaceless name ≡ true
      → string_at s.file ≡ some (codes "Name:\t" ++ name)
      → output_process files pid s
        ≡ ok (tt, record s { overruns = s.overruns + 1; output = s.output ++ (row pid name ∷ []) })
  unfolding output_process print_proc_name
  print_process pid name rest s short spaceless line =
      rw (line, ◌>>=◌, name_text name spaceless, short) refl

  print_long :
      (pid name rest : List ℕ) (s : State W)
      → ltb 5 (length pid) ≡ true
      → starts_spaceless name ≡ true
      → string_at s.file ≡ some (codes "Name:\t" ++ name)
      → output_process files pid s ≡ stop (negative_length, s)
  unfolding output_process print_proc_name
  print_long pid name rest s long spaceless line =
      rw (line, ◌>>=◌, name_text name spaceless, long) refl

  -- The entry of a process up to the output, and the output.
  module _ (pid bytes : List ℕ) (s : State W) (steady : IsSteady files Idle) (idle : Idle s.world)
      (v : HasStatus pid bytes) where
    w1 : W
    w1 = (files.stat (pid_path pid) s.world).1

    fd : ℤ
    fd = (files.open_file (pid_path pid ++ codes "/status") w1).0

    w2 : W
    w2 = (files.open_file (pid_path pid ++ codes "/status") w1).1

    -- The state before the name is looked for.
    unfoldable pub loaded : State W
    unfolding w1 w2 fd
    loaded = record s {
      file = get_first_line (length bytes) (bytes ++ drop (length bytes) s.file);
      world = (files.close fd (files.read fd max_buff w2).1).1;
    }

    idle1 : Idle w1
    unfolding w1
    idle1 = steady.after_stat (pid_path pid) s.world idle

    pub loaded-Idle : Idle loaded.world
    unfolding loaded
    loaded-Idle = steady.after_close (pid_path pid ++ codes "/status") w1 idle1

    pub entry_runs : show_entry files pid s ≡ output_process files pid loaded
    unfolding show_entry show_status loaded
    entry_runs = rw (
      v.directory s.world idle,
      v.numeric,
      v.opens w1 idle1,
      ◌>>=◌,
      v.reads w1 idle1,
      ◌>>◌,
      ◌>>=◌,
      v.closes w1 idle1,
    )

  module _ (pid name : List ℕ) (s : State W) (steady : IsSteady files Idle) (idle : Idle s.world)
      (v : IsProcess pid name) where
    abbrev pub seen : State W
    seen = loaded pid (codes "Name:\t" ++ name ++ (0x0a ∷ v.rest)) s steady idle v.status

    pub seen-name : string_at seen.file ≡ some (codes "Name:\t" ++ name)
    unfolding loaded
    seen-name =
        status_line name v.rest (drop (length (codes "Name:\t" ++ name ++ (0x0a ∷ v.rest))) s.file)
          v.clean

    shown : State W
    shown = record seen { overruns = s.overruns + 1; output = s.output ++ (row pid name ∷ []) }

    pub show_process :
        ltb 5 (length pid) ≡ false
        → (p : Prints (show_entry files pid) tt s (row pid name ∷ []) 1) × Idle p.after.world
          × (string_at p.after.file ≡ some (codes "Name:\t" ++ name))
    unfolding loaded shown
    show_process short = (
      record {
        after = shown;
        runs =
            entry_runs pid _ s steady idle v.status
            ∙ print_process pid name v.rest seen short v.spaceless seen-name;
        prints = refl;
        overrun = refl;
      },
      loaded-Idle pid _ s steady idle v.status,
      seen-name,
    )

    -- For a process with a pid of more than five digits, whose status file opens, reads and closes
    -- and starts with its name, while no other one is open, the array of spaces has a negative
    -- length, and nothing is printed before.
    pub long_pid :
        ltb 5 (length pid) ≡ true
        → (t : State W) × (show_entry files pid s ≡ stop (negative_length, t))
          × (t.output ≡ s.output)
    unfolding loaded
    long_pid long = (
      seen,
      entry_runs pid _ s steady idle v.status
          ∙ print_long pid name v.rest seen long v.spaceless seen-name,
      refl,
    )

  -- The entries after one that printed `lines`.
  pub then-Prints :
      (d_name : List ℕ) (names : List (List ℕ)) (s : State W) (lines more : List Line) (m n : ℕ)
      → (now : Prints (show_entry files d_name) tt s lines m)
      → PrintsIdle (show_entries files names) now.after more n
      → PrintsIdle (show_entries files (d_name ∷ names)) s (lines ++ more) (m + n)
  unfolding show_entries
  then-Prints d_name names s lines more m n now (later, idle) = (
    record {
      after = later.after;
      runs =
          then_runs (show_entry files d_name) (show_entries files names) s now.after now.runs
          ∙ later.runs;
      prints =
          later.prints
          ∙ ap (λ before. before ++ more) now.prints
          ∙ append_assoc s.output lines more;
      overrun = omega (arith, later.overrun, now.overrun);
    },
    idle,
  )

  pub print_entries :
      (names : List (List ℕ)) (ps : List (List ℕ × List ℕ)) (s : State W)
      → IsSteady files Idle
      → Idle s.world
      → Listed names ps
      → PrintsIdle (show_entries files names) s (map row_of ps) (length ps)
  unfolding show_entries
  print_entries _ _ s steady idle end = (
    record { after = s; runs = refl; prints = sym (append-nil s.output); overrun = omega arith },
    idle,
  )
  print_entries _ _ s steady idle (skips d_name names ps other rest) =
      let (now, still) = skip_entry d_name s idle other steady in
      subst (PrintsIdle (show_entries files (d_name ∷ names)) s (map row_of ps))
        (same_count (length ps))
        (then-Prints d_name names s [] (map row_of ps) 0 (length ps) now
          (print_entries names ps now.after steady still rest))
    where
      same_count : (n : ℕ) → 0 + n ≡ n
      same_count n = omega arith
  print_entries _ _ s steady idle (shows pid name names ps process short rest) =
      let (now, still, text) = show_process pid name s steady idle process short in
      subst (PrintsIdle (show_entries files (pid ∷ names)) s (map row_of ((pid, name) ∷ ps)))
        (one_more (length ps))
        (then-Prints pid names s (row pid name ∷ []) (map row_of ps) 1 (length ps) now
          (print_entries names ps now.after steady still rest))
    where
      one_more : (n : ℕ) → 1 + n ≡ suc n
      one_more n = omega arith

  -- If /proc opens and closes, no status file is open before, and each of its entries is either no
  -- directory or not a number, or the directory of a process with a pid of at most five digits
  -- whose status file opens, reads and closes, one at a time, with a first line of Name:, a tab and
  -- a name of one line that starts with no space, main returns 0 and prints the header and one row
  -- for each process, its pid in five columns and its name, in the order of the entries; each row
  -- writes one byte past the array of spaces.
  pub main_lem :
      (names : List (List ℕ)) (ps : List (List ℕ × List ℕ)) (s : State W)
      → IsSteady files Idle
      → Idle s.world
      → (files.opendir s.world).0 ≡ some names
      → Listed names ps
      → ((w : W) → Idle w → same_int (files.closedir w).0 minus_one ≡ false)
      → Prints (main files) (pos 0) s (out (codes "  PID CMD") ∷ map row_of ps) (length ps)
  unfolding main
  main_lem names ps s steady idle opened listed closes =
      let (shown, still) =
        print_entries names ps headed steady (steady.after_opendir s.world idle) listed in
      record {
        after = record shown.after { world = (files.closedir shown.after.world).1 };
        runs = rw (opened, ◌>>=◌, ◌>>◌, shown.runs, closes shown.after.world still) refl;
        prints =
            shown.prints ∙ append_assoc s.output (out (codes "  PID CMD") ∷ []) (map row_of ps);
        overrun = shown.overrun;
      }
    where
      headed : State W
      headed = record s {
        world = (files.opendir s.world).1;
        output = s.output ++ (out (codes "  PID CMD") ∷ []);
      }
