-- ===== src/Ssp/Create.antt =====
-- What ssp_create of ssp/src/ssp.c does to the table in the parent.
use kernel_modules.Common.{
  ℕ, ◌≡◌, refl, false, List, [], ◌∷◌, ◌++◌, length, ℤ, pos, minus_one, is_negative, same_int, ok,
  ◌>>=◌, ◌>>◌,
}
use kernel_modules.Ssp.{Process, System, State, error_check}
use kernel_modules.Ssp.Spawn.{add_child, ssp_create}
use kernel_modules.Ssp.Table.{put, named_process, blank, proc_add_runs}
use kernel_modules.Ssp.Shows.{Shows, Shows-env, HasMemory}
use kernel_modules.Ssp.Grow.{opened, opened-Opened, take_id_runs, slot, fill}

module _ {W : Type 0} (os : System W) where
  -- The state after a process has taken the next id, with `n` processes before.
  abbrev pub added : State W → ℕ → Process → State W
  added s n p = put (opened os s n) n p

  add_child_runs :
      (s : State W) (used : List Process) (name : List ℕ) (args : List (List ℕ)) (pid : ℤ)
      → HasMemory os
      → Shows s used
      → add_child os (name ∷ args) pid s
        ≡ ok (tt, added s (length used) (named_process pid name minus_one))
  unfolding add_child
  add_child_runs s used name args pid memory v = rw (
    take_id_runs os s used memory v,
    ◌>>=◌,
    proc_add_runs (opened os s (length used)) (length used) blank pid name minus_one
        (slot os (opened os s (length used)) used (opened-Opened os s used v)),
  )

  pub added-Shows :
      (s : State W) (used : List Process) (name : List ℕ) (pid stat : ℤ)
      → Shows s used
      → is_negative pid ≡ false
      → Shows
          (added s (length used) (named_process pid name stat))
          (used ++ (named_process pid name stat ∷ []))
  added-Shows s used name pid stat v parent =
      fill os (opened os s (length used)) used (named_process pid name stat)
        (opened-Opened os s used v) v.known (rw parent refl)

  -- The state after fork.
  abbrev pub forked : State W → State W
  forked s = record s { world = (os.fork s.world).1 }

  -- In the parent, while there is memory, ssp_create for a program with a name returns the number
  -- of processes before as the id, and adds exactly the entry with the pid, the name and the status
  -- -1 at that index, in a table that is doubled first with blank entries if it is full; fork gives
  -- a pid that is neither negative nor 0.
  pub ssp_create_lem :
      (s : State W) (used : List Process) (name : List ℕ) (args : List (List ℕ)) (fd0 fd1 fd2 : ℤ)
      → HasMemory os
      → Shows s used
      → is_negative (os.fork s.world).0 ≡ false
      → same_int (os.fork s.world).0 (pos 0) ≡ false
      → let child = named_process (os.fork s.world).0 name minus_one in
        let t = added (forked s) (length used) child in
        (ssp_create os (name ∷ args) fd0 fd1 fd2 s ≡ ok (pos (length used), t))
        × Shows t (used ++ (child ∷ []))
  unfolding ssp_create error_check
  ssp_create_lem s used name args fd0 fd1 fd2 memory v forks parent = (
    rw (
      forks,
      parent,
      ◌>>◌,
      ◌>>=◌,
      add_child_runs (forked s) used name args (os.fork s.world).0 memory w,
      (opened-Opened os (forked s) used w).taken,
    ),
    added-Shows (forked s) used name (os.fork s.world).0 minus_one w forks,
  )
    where
      w : Shows (forked s) used
      w = Shows-env s used ((os.fork s.world).1, s.output) v
