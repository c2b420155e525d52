-- ===== src/Tps/Tests.antt =====
-- Runs of tps/src/main.c on small file systems, and its theorems there.
use kernel_modules.Common.{
  ℕ, ◌≤◌, ◌≡◌, refl, true, false, Bool, if◌then◌else◌, ◌&&◌, ◌==◌, length, replicate, Option, none,
  ℤ, minus_one, arith, List, [], ◌∷◌, ◌++◌, some, codes, pos, Outcome, ok, stop,
}
use kernel_modules.Tps.{
  Files, Line, out, State, Undefined, negative_length, is_numeric, max_buff, pid_path,
  get_first_line, string_at, after_prefix, after_needle, skip_spaces, get_proc_name,
  print_proc_name, output_process, show_status, show_entry, show_entries, main,
}
use kernel_modules.Tps.Listing.{
  IsSteady, HasStatus, IsProcess, end, skips, shows, Prints, row, main_lem, long_pid,
}
use kernel_modules.Tps.Stale.{stale_name}

program : Unit {0}
unfolding is_numeric get_first_line string_at after_prefix after_needle skip_spaces get_proc_name
    print_proc_name output_process show_status show_entry show_entries main
program = tt

abbrev same_text : List ℕ → List ℕ → Bool
same_text [] [] = true
same_text [] (d ∷ ds) = false
same_text (c ∷ cs) [] = false
same_text (c ∷ cs) (d ∷ ds) = c == d && same_text cs ds

-- A kernel with one descriptor, 3, which each open reuses: the world is the contents of the file that
-- is open, if one is. Each directory of /proc has a status file, that of a list of contents.
abbrev World : Type 0
World = Option (List ℕ)

abbrev contents : List (List ℕ × List ℕ) → List ℕ → List ℕ
contents [] path = []
contents ((pid, bytes) ∷ rest) path =
    let later = contents rest path in
    if same_text path (pid_path pid ++ codes "/status") then bytes else later

abbrev read_open : World → Option (List ℕ) × World
read_open none = (none, none)
read_open (some bytes) = (some bytes, some bytes)

abbrev close_open : World → ℤ × World
close_open none = (minus_one, none)
close_open (some bytes) = (pos 0, none)

abbrev small_proc : List (List ℕ) → List (List ℕ × List ℕ) → Files World
small_proc names statuses = record {
  errno = λ w. 2;
  opendir = λ w. (some names, w);
  stat = λ path w. (some true, w);
  open_file = λ path w. (pos 3, some (contents statuses path));
  read = λ fd count w. read_open w;
  close = λ fd w. close_open w;
  closedir = λ w. (pos 0, w);
}

-- No file is open.
abbrev Idle : World → Type 0
Idle w = w ≡ none

small-IsSteady :
    (names : List (List ℕ)) (statuses : List (List ℕ × List ℕ))
    → IsSteady (small_proc names statuses) Idle
small-IsSteady names statuses = record {
  after_opendir = λ w idle. idle;
  after_stat = λ path w idle. idle;
  after_close = λ path w idle. refl;
}

abbrev start : State World
start = record { file = replicate 64 0; output = []; overruns = 0; world = none }

abbrev init : List ℕ
init = codes "Name:\tinit\nUmask:\t0000\n"

abbrev sleeping : List ℕ
sleeping = codes "Name:\tsleep\nUmask:\t0022\n"

-- Two processes with two names, one with a long pid, and one whose status file is empty.
abbrev names : List (List ℕ)
names = codes "." ∷ codes "1" ∷ codes "mem" ∷ codes "42" ∷ []

abbrev procs : Files World
procs =
    small_proc names ((codes "1", init) ∷ (codes "42", sleeping) ∷ (codes "123456", sleeping) ∷ [])

procs-IsSteady : IsSteady procs Idle
procs-IsSteady =
    small-IsSteady names
      ((codes "1", init) ∷ (codes "42", sleeping) ∷ (codes "123456", sleeping) ∷ [])

has_status :
    (pid bytes : List ℕ)
    → is_numeric pid ≡ true
    → length bytes ≤ max_buff
    → (procs.open_file (pid_path pid ++ codes "/status") none).1 ≡ some bytes
    → HasStatus procs Idle pid bytes
has_status pid bytes numeric fits has = record {
  numeric = numeric;
  fits = fits;
  directory = λ w idle. refl;
  opens = λ w idle. refl;
  reads = λ w idle. rw has refl;
  closes = λ w idle. refl;
}

init-IsProcess : IsProcess procs Idle (codes "1") (codes "init")
unfolding is_numeric
init-IsProcess = record {
  rest = codes "Umask:\t0000\n";
  clean = refl;
  spaceless = refl;
  status = has_status (codes "1") init refl (omega arith) refl;
}

sleep-IsProcess :
    (pid : List ℕ)
    → is_numeric pid ≡ true
    → (procs.open_file (pid_path pid ++ codes "/status") none).1 ≡ some sleeping
    → IsProcess procs Idle pid (codes "sleep")
sleep-IsProcess pid numeric has = record {
  rest = codes "Umask:\t0022\n";
  clean = refl;
  spaceless = refl;
  status = has_status pid sleeping numeric (omega arith) has;
}

main_lem_example :
    Prints
      (main procs)
      (pos 0)
      start
      (out (codes "  PID CMD")
        ∷ row (codes "1") (codes "init")
        ∷ row (codes "42") (codes "sleep")
        ∷ [])
      2
unfolding is_numeric
main_lem_example =
    main_lem procs Idle names ((codes "1", codes "init") ∷ (codes "42", codes "sleep") ∷ []) start
      procs-IsSteady refl refl
      (skips (codes ".") _ _ (record { other = λ w idle. refl })
        (shows (codes "1") (codes "init") _ _ init-IsProcess refl (
          skips (codes "mem") _ _ (record { other = λ w idle. refl })
            (shows (codes "42") (codes "sleep") _ _ (sleep-IsProcess (codes "42") refl refl) refl
              end))))
      (λ w idle. refl)

long_pid_example :
    (t : State World) × (show_entry procs (codes "123456") start ≡ stop (negative_length, t))
    × (t.output ≡ [])
unfolding is_numeric
long_pid_example =
    long_pid procs Idle (codes "123456") (codes "sleep") start procs-IsSteady refl
      (sleep-IsProcess (codes "123456") refl refl) refl

stale_name_example :
    Prints
      (show_entries procs (codes "1" ∷ codes "7" ∷ []))
      tt
      start
      (row (codes "1") (codes "init") ∷ row (codes "7") (codes "init") ∷ [])
      2
unfolding is_numeric
stale_name_example =
    stale_name procs Idle (codes "1") (codes "7") (codes "init") start procs-IsSteady refl
      init-IsProcess (has_status (codes "7") [] refl (omega arith) refl) refl refl

abbrev lines : {A : Type 0} → Outcome (Undefined × State (World)) (A × State (World)) → List Line
lines (ok (a, s)) = s.output
lines (stop (reason, s)) = s.output

lists :
    lines (main procs start)
    ≡ out (codes "  PID CMD") ∷ out (codes "    1 init") ∷ out (codes "   42 sleep") ∷ []
unfolding program
lists = refl
