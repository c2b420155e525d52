-- ===== src/Ssp/Spawn.antt =====
-- ssp/src/ssp.c: ssp_create, which forks. In the child it sets the descriptors and runs the program.
use kernel_modules.Common.{
  ℕ, zero, suc, space, below, ◌*◌, ◌+◌, ◌-◌, Bool, ◌&&◌, ◌||◌, not, ◌==◌, leb, if◌then◌else◌, List,
  [], ◌∷◌, ◌++◌, Option, none, some, ℤ, pos, negsuc, minus_one, same_int, next_int, at_most, codes,
  show_int, ◌>>=◌, ◌>>◌, ret, ok,
}
use kernel_modules.Ssp.{
  Entry, System, SspCall, executed, null_pointer, quit, or_quit, call, exit_errno, error_check,
  ssp_expand, ssp_proc_add,
}

-- The digits that a string starts with, after the number `before`.
abbrev leading_number : ℕ → List ℕ → ℕ
leading_number before [] = before
leading_number before (c ∷ rest) =
    let more = leading_number (before * 10 + (c - 0x30)) rest in
    if leb 0x30 c && leb c 0x39 then more else before

abbrev opposite : ℕ → ℤ
opposite zero = pos 0
opposite (suc n) = negsuc n

abbrev is_space : ℕ → Bool
is_space c = c == space || leb 9 c && leb c 13

-- The C function, for values that fit an int.
unfoldable pub atoi : List ℕ → ℤ
atoi [] = pos 0
atoi (c ∷ rest) =
    let later = atoi rest in
    if is_space c
    then later
    else if c == 0x2d
    then opposite (leading_number 0 rest)
    else if c == 0x2b
    then pos (leading_number 0 rest)
    else pos (leading_number 0 (c ∷ rest))

abbrev pub first_arg : List (List ℕ) → Option (List ℕ)
first_arg [] = none
first_arg (name ∷ rest) = some name

module _ {W : Type 0} (os : System W) where
  unfoldable pub set_fds : ℤ → ℤ → ℤ → SspCall W (Unit {0})
  set_fds fd0 fd1 fd2 = do
    r ← call (os.dup2 fd0 (pos 0))
    error_check os r "dup2"
    r ← call (os.dup2 fd1 (pos 1))
    error_check os r "dup2"
    r ← call (os.dup2 fd2 (pos 2))
    error_check os r "dup2"

  -- The loop of close_fds.
  unfoldable pub close_entries : ℤ → List Entry → SspCall W (Unit {0})
  unfolding atoi
  close_entries dir_fd [] = ret tt
  close_entries dir_fd (entry ∷ rest) =
      let later = close_entries dir_fd rest in
      let fd = atoi entry.d_name in
      if entry.is_link && not (at_most fd 2) && not (same_int fd dir_fd)
      then (do r ← call (os.close fd); error_check os r "close"; later)
      else later

  unfoldable pub close_fds : SspCall W (Unit {0})
  close_fds = do
    id ← (λ s. ok (os.getpid s.world, s))
    dir_fd ← call (os.open_file (codes "/proc/" ++ show_int (pos id) ++ codes "/fd"))
    dir ← call (os.fdopendir dir_fd)
    elim dir [
      | none ↦ exit_errno os "fd open dir"
      | some entries ↦ do
        close_entries dir_fd entries
        r ← call (os.closedir dir_fd)
        error_check os r "close fd dir"
    ]

  -- The branch of the child. If execvp fails and its value is not negative, the code goes on to its
  -- return, as the parent does.
  unfoldable pub run_child : List (List ℕ) → ℤ → ℤ → ℤ → SspCall W (Unit {0})
  run_child argv fd0 fd1 fd2 = do
    set_fds fd0 fd1 fd2
    close_fds
    r ← call (os.execvp argv)
    elim r [ none ↦ quit executed | some value ↦ error_check os value "execvp" ]

  -- `ssp_id++`, and the double of the array if it is full.
  unfoldable pub take_id : SspCall W ℤ
  take_id = do
    (λ s. ok (tt, record s { ssp_id = next_int s.ssp_id }))
    full ← (λ s. ok (not (below s.ssp_id s.processes_size), s))
    if full then (do id ← ssp_expand os; (λ s. ok (tt, record s { ssp_id = id }))) else ret tt
    (λ s. ok (s.ssp_id, s))

  unfoldable pub add_child : List (List ℕ) → ℤ → SspCall W (Unit {0})
  unfolding take_id
  add_child argv pid = do
    id ← take_id
    name ← or_quit null_pointer (first_arg argv)
    ssp_proc_add id pid name minus_one

  unfoldable pub ssp_create : List (List ℕ) → ℤ → ℤ → ℤ → SspCall W ℤ
  unfolding run_child add_child
  ssp_create argv fd0 fd1 fd2 = do
    pid ← call os.fork
    error_check os pid "fork"
    if same_int pid (pos 0) then run_child argv fd0 fd1 fd2 else add_child argv pid
    (λ s. ok (s.ssp_id, s))
