-- ===== src/Ssp/Status.antt =====
-- ssp/src/ssp.c: the status of a process, signals and waiting.
use Prim.Native.String.{String}
use kernel_modules.Common.{
  ℕ, ◌+◌, ◌/◌, ◌%◌, Bool, true, false, ◌&&◌, ◌||◌, not, ◌==◌, ltb, if◌then◌else◌, ◌++◌, ℤ, pos,
  minus_one, is_negative, same_int, at_most, below, codes, show_int, ok, ◌>>=◌, ◌>>◌, ret,
}
use kernel_modules.Ssp.{
  System, SspCall, exit, err, perror, quit, call, print, process, for_each, ssp_set_stat,
  error_check,
}

-- The macros on the word that waitpid stores.
abbrev pub wifexited : ℕ → Bool
wifexited word = word % 128 == 0

abbrev pub wexitstatus : ℕ → ℕ
wexitstatus word = word / 256 % 256

-- `(signed char) ((word & 0x7f) + 1) >> 1 > 0`.
abbrev pub wifsignaled : ℕ → Bool
wifsignaled word = ltb 0 (word % 128) && ltb (word % 128) 127

abbrev pub wtermsig : ℕ → ℕ
wtermsig word = word % 128

module _ {W : Type 0} where
  unfoldable pub ssp_exit : ℤ → ℕ → SspCall W (Unit {0})
  ssp_exit id word =
      if wifexited word
      then ssp_set_stat id (pos (wexitstatus word))
      else if wifsignaled word
      then ssp_set_stat id (pos (wtermsig word + 128))
      else ret tt

abbrev pub is_positive : ℤ → Bool
is_positive i = not (at_most i 0)

module _ {W : Type 0} (os : System W) where
  -- `perror(message)`.
  abbrev pub report : String → SspCall W (Unit {0})
  report message = do e ← (λ s. ok (os.errno s.world, s)); print (perror message e)

  unfoldable pub ssp_check_exit : ℤ → SspCall W (Unit {0})
  unfolding ssp_exit
  ssp_check_exit id = do
    p ← process id
    w ← call (os.waitpid p.pid true)
    if is_negative w.result then report "check exit" else ret tt
    if is_positive w.result then ssp_exit id w.word else ret tt

  unfoldable pub ssp_get_status : ℤ → SspCall W ℤ
  unfolding ssp_check_exit
  ssp_get_status id = do ssp_check_exit id; p ← process id; ret p.status

  -- The guard tests `ssp_id`, the newest id, where one expects `id`, and so does the index.
  unfoldable pub ssp_send_signal : ℤ → ℤ → SspCall W (Unit {0})
  ssp_send_signal id signum = do
    invalid ← (λ s. ok (is_negative s.ssp_id || not (below id s.processes_size), s))
    if invalid then print (err (codes "Invalid ssp_id")) else do
      p ← (λ s. process s.ssp_id s)
      if is_negative p.pid
          then ret tt
          else do r ← call (os.kill p.pid signum); error_check os r "send_signal"

  unfoldable pub wait_one : ℤ → SspCall W (Unit {0})
  unfolding ssp_exit
  wait_one id = do
    p ← process id
    if same_int p.pid minus_one then ret tt else do
      w ← call (os.waitpid p.pid false)
      if same_int w.result p.pid then ssp_exit id w.word else ret tt

  unfoldable pub check_status : ℤ → SspCall W (Unit {0})
  check_status id = do
    p ← process id
    if not (same_int p.pid minus_one) && (is_negative p.status || not (at_most p.status 255))
        then (do
          print (
              err (
                codes "Process "
                ++ show_int p.pid
                ++ codes " has an invalid status: "
                ++ show_int p.status))
          quit (exit 1))
        else ret tt

  unfoldable pub ssp_wait : SspCall W (Unit {0})
  unfolding wait_one check_status
  ssp_wait = do
    size ← (λ s. ok (s.processes_size, s))
    for_each size 0 (λ i. wait_one (pos i))
    for_each size 0 (λ i. check_status (pos i))
