-- ===== src/Tps.antt =====
-- tps/src/main.c: the list of processes from /proc. The kernel and the C library are a parameter, the
-- record Files over a type of worlds.
pub mod Status
pub mod Listing
pub mod Stale
mod Tests
use Prim.Native.String.{String}
use kernel_modules.Common.{
  ℕ, zero, suc, ◌+◌, ◌-◌, Bool, true, false, ◌&&◌, ◌||◌, not, ◌==◌, ltb, leb, if◌then◌else◌, List,
  [], ◌∷◌, ◌++◌, Option, none, some, length, drop, replicate, ℤ, pos, negsuc, minus_one, same_int,
  codes, space, pad_left, Outcome, ok, stop, Call, ◌>>=◌, ◌>>◌, ret,
}

-- `opendir` of /proc gives the names that readdir returns; `stat` tells whether a path is a directory,
-- if it can; `read` gives the bytes that it stores, if it can.
pub record Files (W : Type 0) : Type 0 where
  pub errno : W → ℕ
  pub opendir : W → Option (List (List ℕ)) × W
  pub stat : List ℕ → W → Option Bool × W
  pub open_file : List ℕ → W → ℤ × W
  pub read : ℤ → ℕ → W → Option (List ℕ) × W
  pub close : ℤ → W → ℤ × W
  pub closedir : W → ℤ × W

pub data Line : Type 0 where
  out : List ℕ → Line
  perror : String → ℕ → Line

-- The array `file` of main, the lines written, and how many bytes were written past an array.
pub record State (W : Type 0) : Type 0 where
  pub file : List ℕ
  pub output : List Line
  pub overruns : ℕ
  pub world : W

-- What C leaves undefined: strstr gave NULL, a string has no end in its array, and an array of
-- negative length.
pub data Undefined : Type 0 where
  null_pointer unterminated negative_length : Undefined

abbrev pub TpsCall : Type 0 → Type 0 → Type 0
TpsCall W A = Call (Undefined × State W) (State W) A

-- `line[0] == '\0'`.
abbrev pub is_empty : List ℕ → Bool
is_empty [] = true
is_empty (c ∷ rest) = false

-- MAX_BUFF.
abbrev pub max_buff : ℕ
max_buff = 4096

abbrev pub is_digit : ℕ → Bool
is_digit c = leb 0x30 c && leb c 0x39

abbrev pub is_space : ℕ → Bool
is_space c = c == space || leb 9 c && leb c 13

unfoldable pub is_numeric : List ℕ → Bool
is_numeric [] = true
is_numeric (c ∷ rest) = let later = is_numeric rest in if is_digit c then later else false

-- GetFirstLine, on the bytes of the array from the index of the loop on, of which `count` were read.
unfoldable pub get_first_line : ℕ → List ℕ → List ℕ
get_first_line zero file = file
get_first_line (suc count) [] = []
get_first_line (suc count) (c ∷ file) =
    let later = get_first_line count file in if c == 0x0a then 0 ∷ file else c ∷ later

-- The string at the beginning of an array, if it ends there.
unfoldable pub string_at : List ℕ → Option (List ℕ)
string_at [] = none
string_at (c ∷ rest) =
    let later = string_at rest in
    if c == 0 then some [] else elim later [ none ↦ none | some text ↦ some (c ∷ text) ]

-- The rest of `text` after `prefix`, if it starts so.
unfoldable pub after_prefix : List ℕ → List ℕ → Option (List ℕ)
after_prefix [] text = some text
after_prefix (c ∷ prefix) [] = none
after_prefix (c ∷ prefix) (d ∷ text) =
    let later = after_prefix prefix text in if c == d then later else none

-- `strstr(text, needle) + strlen(needle)`.
unfoldable pub after_needle : List ℕ → List ℕ → Option (List ℕ)
unfolding after_prefix
after_needle needle [] = after_prefix needle []
after_needle needle (c ∷ text) =
    let later = after_needle needle text in
    elim (after_prefix needle (c ∷ text)) [ some rest ↦ some rest | none ↦ later ]

unfoldable pub skip_spaces : List ℕ → List ℕ
skip_spaces [] = []
skip_spaces (c ∷ text) =
    let later = skip_spaces text in if is_space c || c == 0x09 then later else c ∷ text

unfoldable pub get_proc_name : List ℕ → Option (List ℕ)
unfolding after_needle skip_spaces
get_proc_name line = elim (after_needle (codes "Name:") line) [
  | none ↦ none
  | some rest ↦ some (skip_spaces rest)
]

module _ {W : Type 0} where
  abbrev pub undefined : {A : Type 0} → Undefined → TpsCall W A
  undefined reason s = stop (reason, s)

  abbrev pub or_undefined : {A : Type 0} → Undefined → Option A → TpsCall W A
  or_undefined reason none = undefined reason
  or_undefined reason (some a) = ret a

  abbrev pub call : {A : Type 0} → (W → A × W) → TpsCall W A
  call f s = let (a, w) = f s.world in ok (a, record s { world = w })

  abbrev pub print : Line → TpsCall W (Unit {0})
  print line s = ok (tt, record s { output = s.output ++ (line ∷ []) })

  -- The array `space` has 5 - strlen(pid) bytes, and its terminating 0 is written one byte past it.
  unfoldable pub print_proc_name : List ℕ → List ℕ → TpsCall W (Unit {0})
  print_proc_name pid name = if ltb 5 (length pid) then undefined negative_length else do
    (λ s. ok (tt, record s { overruns = s.overruns + 1 }))
    print (out (replicate (5 - length pid) space ++ pid ++ (space ∷ []) ++ name))

abbrev pub pid_path : List ℕ → List ℕ
pid_path d_name = codes "/proc/" ++ d_name

abbrev pub is_directory : Option Bool → Bool
is_directory none = false
is_directory (some directory) = directory

module _ {W : Type 0} (files : Files W) where
  abbrev pub report : String → TpsCall W (Unit {0})
  report message = do code ← (λ s. ok (files.errno s.world, s)); print (perror message code)

  -- The array `file` after a read of some bytes.
  abbrev pub store : List ℕ → TpsCall W (Unit {0})
  store bytes s = ok (tt, record s { file = bytes ++ drop (length bytes) s.file })

  -- The output of a process, for the array `file` as it is now.
  unfoldable pub output_process : List ℕ → TpsCall W (Unit {0})
  unfolding string_at get_proc_name print_proc_name
  output_process pid = do
    file ← (λ s. ok (s.file, s))
    line ← or_undefined unterminated (string_at file)
    if is_empty line
        then ret tt
        else do name ← or_undefined null_pointer (get_proc_name line); print_proc_name pid name

  -- The status file of a process, whose `open` gave `status_file`.
  unfoldable pub show_status : List ℕ → ℤ → TpsCall W (Unit {0})
  unfolding output_process
  show_status pid status_file = do
    bytes ← call (files.read status_file max_buff)
    elim bytes [
      | none ↦ do
        report "Unable to read status file.\n"
        closed ← call (files.close status_file)
        ret tt
      | some bytes ↦ do
        store bytes
        (λ s. ok (tt, record s { file = get_first_line (length bytes) s.file }))
        closed ← call (files.close status_file)
        if same_int closed minus_one
            then report "Unable to open status file.\n"
            else output_process pid
    ]

  -- The body of the loop of main.
  unfoldable pub show_entry : List ℕ → TpsCall W (Unit {0})
  unfolding is_numeric show_status
  show_entry d_name = do
    path_stat ← call (files.stat (pid_path d_name))
    if not (is_directory path_stat) || not (is_numeric d_name) then ret tt else do
      status_file ← call (files.open_file (pid_path d_name ++ codes "/status"))
      if same_int status_file minus_one
          then report "Unable to open status file.\n"
          else show_status d_name status_file

  unfoldable pub show_entries : List (List ℕ) → TpsCall W (Unit {0})
  unfolding show_entry
  show_entries [] = ret tt
  show_entries (d_name ∷ rest) = do show_entry d_name; show_entries rest

  unfoldable pub main : TpsCall W ℤ
  unfolding show_entries
  main = do
    proc_dir ← call files.opendir
    elim proc_dir [
      | none ↦ do report "Unable to open '/proc' directory.\n"; ret (pos 1)
      | some names ↦ do
        print (out (codes "  PID CMD"))
        show_entries names
        closed ← call files.closedir
        if same_int closed minus_one
            then (do report "Unable to open status file.\n"; ret minus_one)
            else ret (pos 0)
    ]
