-- ===== src/Ssp.antt =====
-- ssp/src/ssp.c: the table of processes. The kernel and the C library are a parameter, the record
-- System over a type of worlds; a call is a C function on the state of the program.
pub mod Spawn
pub mod Status
pub mod Print
mod Tests
pub mod Table
pub mod Shows
pub mod Grow
pub mod Create
pub mod Child
pub mod Decode
pub mod Wait
pub mod Unknown
pub mod Walks
pub mod Signal
pub mod Rows
pub mod Printed
pub mod Keeps
pub mod Session
use Prim.Native.String.{String}
use kernel_modules.Common.{
  ℕ, zero, suc, ◌+◌, ◌-◌, ◌*◌, ◌/◌, Bool, true, false, if◌then◌else◌, List, [], ◌∷◌, ◌++◌, Option,
  none, some, get_elem?, set, replicate, ℤ, pos, negsuc, minus_one, is_negative, Outcome, ok, stop,
  Call, ◌>>=◌, ◌>>◌, ret,
}

pub record Process : Type 0 where
  pub pid : ℤ
  pub name : Option (List ℕ)
  pub status : ℤ

-- What waitpid returns, and the word that it stores.
pub record Waited : Type 0 where
  pub result : ℤ
  pub word : ℕ

-- An entry of a directory: whether it is a link, and its name.
pub record Entry : Type 0 where
  pub is_link : Bool
  pub d_name : List ℕ

-- `waitpid pid no_hang`; `fdopendir` gives the entries that readdir returns; `allocate` tells whether
-- malloc or realloc succeeds, and `garbage` is what new memory holds; `execvp` returns nothing if
-- the program runs.
pub record System (W : Type 0) : Type 0 where
  pub errno : W → ℕ
  pub echild : ℕ
  pub fork : W → ℤ × W
  pub waitpid : ℤ → Bool → W → Waited × W
  pub kill : ℤ → ℤ → W → ℤ × W
  pub allocate : ℕ → W → Bool × W
  pub garbage : Process
  pub set_subreaper : W → W
  pub getpid : W → ℕ
  pub dup2 : ℤ → ℤ → W → ℤ × W
  pub open_file : List ℕ → W → ℤ × W
  pub fdopendir : ℤ → W → Option (List Entry) × W
  pub closedir : ℤ → W → ℤ × W
  pub close : ℤ → W → ℤ × W
  pub execvp : List (List ℕ) → W → Option ℤ × W

-- A line on stdout, one on stderr, and a call of perror with the value of errno.
pub data Line : Type 0 where
  out : List ℕ → Line
  err : List ℕ → Line
  perror : String → ℕ → Line

pub record State (W : Type 0) : Type 0 where
  pub processes : List Process
  pub processes_size : ℕ
  pub ssp_id : ℤ
  pub output : List Line
  pub world : W

-- The ends of a run: exit with a code, another program instead of this one, an access out of the
-- array, one through NULL, and the end of the rounds given to a loop.
pub data Reason : Type 0 where
  exit : ℕ → Reason
  executed out_of_bounds null_pointer out_of_fuel : Reason

abbrev pub SspCall : Type 0 → Type 0 → Type 0
SspCall W A = Call (Reason × State W) (State W) A

module _ {W : Type 0} where
  abbrev pub quit : {A : Type 0} → Reason → SspCall W A
  quit reason s = stop (reason, s)

  abbrev pub or_quit : {A : Type 0} → Reason → Option A → SspCall W A
  or_quit reason none = quit reason
  or_quit reason (some a) = ret a

  abbrev pub call : {A : Type 0} → (W → A × W) → SspCall W A
  call f s = let (a, w) = f s.world in ok (a, record s { world = w })

  abbrev pub print : Line → SspCall W (Unit {0})
  print line s = ok (tt, record s { output = s.output ++ (line ∷ []) })

  -- `processes[id]` and a write to its fields.
  unfoldable pub process : ℤ → SspCall W Process
  process (negsuc n) s = quit out_of_bounds s
  process (pos id) s = or_quit out_of_bounds (get_elem? s.processes id) s

  unfoldable pub change : ℤ → (Process → Process) → SspCall W (Unit {0})
  unfolding process
  change (negsuc n) f = quit out_of_bounds
  change (pos id) f = do
    p ← process (pos id)
    (λ s. ok (tt, record s { processes = set s.processes id (f p) }))

  unfoldable pub ssp_set_pid : ℤ → ℤ → SspCall W (Unit {0})
  unfolding change
  ssp_set_pid id pid = change id (λ p. record p { pid = pid })

  unfoldable pub ssp_set_stat : ℤ → ℤ → SspCall W (Unit {0})
  unfolding change
  ssp_set_stat id stat = change id (λ p. record p { status = stat })

  unfoldable pub ssp_set_name : ℤ → Option (List ℕ) → SspCall W (Unit {0})
  unfolding change
  ssp_set_name id name = change id (λ p. record p { name = name })

  unfoldable pub ssp_proc_add : ℤ → ℤ → List ℕ → ℤ → SspCall W (Unit {0})
  unfolding ssp_set_pid ssp_set_name ssp_set_stat
  ssp_proc_add id pid name stat = do
    ssp_set_pid id pid
    ssp_set_name id (some name)
    ssp_set_stat id stat

  unfoldable pub ssp_proc_init : ℤ → SspCall W (Unit {0})
  unfolding ssp_set_pid ssp_set_name ssp_set_stat
  ssp_proc_init id = do ssp_set_pid id minus_one; ssp_set_name id none; ssp_set_stat id (pos 0)

  -- `for` over `count` indices from `i` on.
  unfoldable pub for_each : ℕ → ℕ → (ℕ → SspCall W (Unit {0})) → SspCall W (Unit {0})
  for_each zero i body = ret tt
  for_each (suc count) i body = do body i; for_each count (i + 1) body

-- sizeof(SSP_Process).
abbrev pub process_bytes : ℕ
process_bytes = 24

module _ {W : Type 0} (os : System W) where
  -- `int err = errno; perror(message); exit(err);`
  unfoldable pub exit_errno : {A : Type 0} → String → SspCall W A
  exit_errno message = do
    code ← (λ s. ok (os.errno s.world, s))
    print (perror message code)
    quit (exit code)

  unfoldable pub error_check : ℤ → String → SspCall W (Unit {0})
  error_check value message = if is_negative value then exit_errno message else ret tt

  unfoldable pub ssp_expand : SspCall W ℤ
  unfolding for_each ssp_proc_init
  ssp_expand = do
    (λ s. ok (tt, record s { processes_size = s.processes_size * 2 }))
    size ← (λ s. ok (s.processes_size, s))
    granted ← call (os.allocate (size * process_bytes))
    if granted then ret tt else exit_errno "realloc"
    (λ s. ok (tt, record s { processes = s.processes ++ replicate (size - size / 2) os.garbage }))
    for_each (size - size / 2) (size / 2) (λ i. ssp_proc_init (pos i))
    ret (pos (size / 2))

  unfoldable pub ssp_init : SspCall W (Unit {0})
  unfolding for_each ssp_proc_init
  ssp_init = do
    (λ s. ok (tt, record s { processes_size = 100 }))
    granted ← call (os.allocate (100 * process_bytes))
    if granted then ret tt else exit_errno "malloc"
    (λ s. ok (tt, record s { processes = replicate 100 os.garbage }))
    for_each 100 0 (λ i. ssp_proc_init (pos i))
    call (λ w. (tt, os.set_subreaper w))
