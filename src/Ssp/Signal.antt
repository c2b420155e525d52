-- ===== src/Ssp/Signal.antt =====
-- ssp_init and ssp_send_signal of ssp/src/ssp.c.
use kernel_modules.Common.{
  ℕ, ◌≡◌, refl, ap, ◌∙◌, if◌then◌else◌, [], replicate, some, get_elem?, ℤ, pos, ◌*◌, minus_one,
  is_negative, below, codes, Outcome, ok, ◌>>=◌, ◌>>◌, Bool-cases, inl, inr, arith, then_runs,
}
use kernel_modules.Ssp.{
  Process, System, err, State, Reason, process, process_bytes, call, for_each, ssp_proc_init,
  error_check, ssp_init, print,
}
use kernel_modules.Ssp.Status.{ssp_send_signal}
use kernel_modules.Ssp.Table.{process_runs, blank}
use kernel_modules.Ssp.Shows.{Shows, HasMemory, allocated, blanks}

module _ {W : Type 0} (os : System W) where
  -- The state after ssp_init.
  abbrev pub fresh : State W → State W
  fresh s = record s {
    processes = replicate 100 blank;
    processes_size = 100;
    world = os.set_subreaper (allocated os 100 s.world);
  }

  pub ssp_init_lem :
      (s : State W)
      → HasMemory os
      → s.ssp_id ≡ minus_one
      → (ssp_init os s ≡ ok (tt, fresh s)) × Shows (fresh s) []
  unfolding ssp_init
  ssp_init_lem s memory none_yet = (
    rw (memory (100 * process_bytes) s.world) filled,
    record {
      free = 100;
      table = refl;
      size = refl;
      newest = rw none_yet refl;
      room = omega arith;
      known = refl;
    },
  )
    where
      got : State W
      got = record s { processes_size = 100; world = allocated os 100 s.world }

      cleared :
          for_each 100 0
            (λ i. ssp_proc_init (pos i))
            (record got { processes = replicate 100 os.garbage })
          ≡ ok (tt, record got { processes = replicate 100 blank })
      cleared = blanks got [] 100 os.garbage

      filled :
          (for_each 100 0 (λ i. ssp_proc_init (pos i)) >> call (λ w. (tt, os.set_subreaper w)))
            (record got { processes = replicate 100 os.garbage })
          ≡ ok (tt, fresh s)
      filled =
          then_runs (for_each 100 0 (λ i. ssp_proc_init (pos i)))
            (call (λ w. (tt, os.set_subreaper w)))
            (record got { processes = replicate 100 os.garbage })
            (record got { processes = replicate 100 blank }) cleared

  -- A signal to the process `p`, unless it has no pid.
  abbrev pub signalled : Process → ℤ → State W → Outcome (Reason × State W) (Unit {0} × State W)
  signalled p signum s =
      if is_negative p.pid
      then ok (tt, s)
      else error_check os (os.kill p.pid signum s.world).0 "send_signal"
          (record s { world = (os.kill p.pid signum s.world).1 })

  -- ssp_send_signal uses its id only to compare it with processes_size: for every id below,
  -- negative ones too, the signal goes to the process that was created last, unless that has no
  -- pid; for any other id a message is printed.
  pub send_signal_newest :
      (id signum : ℤ) (s : State W) (newest : ℕ) (p : Process)
      → s.ssp_id ≡ pos newest
      → get_elem? s.processes newest ≡ some p
      → ssp_send_signal os id signum s ≡ (
          if below id s.processes_size
          then signalled p signum s
          else print (err (codes "Invalid ssp_id")) s)
  unfolding ssp_send_signal
  send_signal_newest id signum s newest p last at_newest =
      rw (ap is_negative last) (elim (Bool-cases (below id s.processes_size)) [
        | inl valid ↦
            rw (valid, ◌>>=◌, located)
              (elim (Bool-cases (is_negative p.pid)) [ inl h ↦ rw h refl | inr h ↦ rw h refl ])
        | inr invalid ↦ rw invalid refl
      ])
    where
      located : process s.ssp_id s ≡ ok (p, s)
      located = ap (λ i. process i s) last ∙ process_runs s newest p at_newest
