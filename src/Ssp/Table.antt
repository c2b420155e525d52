-- ===== src/Ssp/Table.antt =====
-- The table of ssp/src/ssp.c as the list of the processes that have an id.
use kernel_modules.Common.{
  ℕ, suc, ◌≡◌, refl, sym, ap, Bool, true, ◌&&◌, List, [], ◌∷◌, ◌++◌, none, some, length,
  length-append, get_elem?, get_elem?-middle, get_elem?-set, set-middle, set_twice, append_assoc,
  set, ℤ, pos, minus_one, ok, ◌>>=◌, ◌>>◌, arith,
}
use mathlib.Core.Path.{subst}
use kernel_modules.Ssp.{
  Process, Line, State, SspCall, process, change, for_each, ssp_set_pid, ssp_set_stat, ssp_set_name,
  ssp_proc_add, ssp_proc_init,
}

module _ {W : Type 0} where
  abbrev pub with : State W → List Process → W × List Line → State W
  with s ps (w, lines) = record s { processes = ps; world = w; output = lines }

  abbrev pub env : State W → W × List Line
  env s = (s.world, s.output)

  abbrev pub put : State W → ℕ → Process → State W
  put s id p = record s { processes = set s.processes id p }

  pub process_runs :
      (s : State W) (id : ℕ) (p : Process)
      → get_elem? s.processes id ≡ some p
      → process (pos id) s ≡ ok (p, s)
  unfolding process
  process_runs s id p h = rw h refl

  pub change_runs :
      (s : State W) (id : ℕ) (p : Process) (f : Process → Process)
      → get_elem? s.processes id ≡ some p
      → change (pos id) f s ≡ ok (tt, put s id (f p))
  unfolding change
  change_runs s id p f h = rw (process_runs s id p h, ◌>>=◌)

  -- Three writes to one process.
  thrice :
      (s : State W) (id : ℕ) (p : Process) (f g h : Process → Process)
      → get_elem? s.processes id ≡ some p
      → (do change (pos id) f; change (pos id) g; change (pos id) h) s
        ≡ ok (tt, put s id (h (g (f p))))
  thrice s id p f g h e = rw (
    change_runs s id p f e,
    ◌>>◌,
    ◌>>=◌,
    change_runs (put s id (f p)) id (f p) g (get_elem?-set s.processes id p (f p) e),
    set_twice s.processes id (f p) (g (f p)),
    change_runs (put s id (g (f p))) id (g (f p)) h (get_elem?-set s.processes id p (g (f p)) e),
    set_twice s.processes id (g (f p)) (h (g (f p))),
  )

-- An entry with no process.
abbrev pub blank : Process
blank = record { pid = minus_one; name = none; status = pos 0 }

abbrev pub named_process : ℤ → List ℕ → ℤ → Process
named_process pid name status = record { pid = pid; name = some name; status = status }

module _ {W : Type 0} where
  pub proc_add_runs :
      (s : State W) (id : ℕ) (p : Process) (pid : ℤ) (name : List ℕ) (stat : ℤ)
      → get_elem? s.processes id ≡ some p
      → ssp_proc_add (pos id) pid name stat s ≡ ok (tt, put s id (named_process pid name stat))
  unfolding ssp_proc_add ssp_set_pid ssp_set_name ssp_set_stat
  proc_add_runs s id p pid name stat e =
      thrice s id p (λ p. record p { pid = pid }) (λ p. record p { name = some name })
        (λ p. record p { status = stat }) e

  pub proc_init_runs :
      (s : State W) (id : ℕ) (p : Process)
      → get_elem? s.processes id ≡ some p
      → ssp_proc_init (pos id) s ≡ ok (tt, put s id blank)
  unfolding ssp_proc_init ssp_set_pid ssp_set_name ssp_set_stat
  proc_init_runs s id p e =
      thrice s id p (λ p. record p { pid = minus_one }) (λ p. record p { name = none })
        (λ p. record p { status = pos 0 }) e

  -- A walk over the table, one process after the other.
  abbrev pub walk :
      (Process → W × List Line → Process × (W × List Line))
      → List Process
      → W × List Line
      → List Process × (W × List Line)
  walk step [] e = ([], e)
  walk step (p ∷ ps) e =
      ((step p e).0 ∷ (walk step ps (step p e).1).0, (walk step ps (step p e).1).1)

  pub length-walk :
      (step : Process → W × List Line → Process × (W × List Line)) (ps : List Process)
      (e : W × List Line)
      → length (walk step ps e).0 ≡ length ps
  length-walk step [] e = refl
  length-walk step (p ∷ ps) e = ap suc (length-walk step ps (step p e).1)

  -- The state after a step on the process `p` with the id `i`.
  abbrev pub stepped :
      (Process → W × List Line → Process × (W × List Line)) → State W → ℕ → Process → State W
  stepped step s i p = with s (set s.processes i (step p (env s)).0) (step p (env s)).1

abbrev pub all : (Process → Bool) → List Process → Bool
all good [] = true
all good (p ∷ rest) = good p && all good rest

pub all_head : (a b : Bool) → (a && b) ≡ true → a ≡ true
all_head a b h = ground arith

pub all_tail : (a b : Bool) → (a && b) ≡ true → b ≡ true
all_tail a b h = ground arith

all-true : (ps : List Process) → all (λ p. true) ps ≡ true
all-true [] = refl
all-true (p ∷ ps) = all-true ps

module _ {W : Type 0} (body : ℕ → SspCall W (Unit {0})) (good : Process → Bool)
    (step : Process → W × List Line → Process × (W × List Line))
    (runs : (s : State W) (i : ℕ) (p : Process)
      → get_elem? s.processes i ≡ some p
      → good p ≡ true
      → body i s ≡ ok (tt, stepped step s i p)) where
  pub for_each-walk_good :
      (s : State W) (before rest : List Process) (e : W × List Line)
      → all good rest ≡ true
      → for_each (length rest) (length before) body (with s (before ++ rest) e)
        ≡ ok (tt, with s (before ++ (walk step rest e).0) (walk step rest e).1)
  unfolding for_each
  for_each-walk_good s before [] e h = refl
  for_each-walk_good s before (p ∷ rest) e h =
      let q = (step p e).0 in
      rw
        (
          runs (with s (before ++ (p ∷ rest)) e) (length before) p (get_elem?-middle before p rest)
              (all_head (good p) (all good rest) h),
          ◌>>◌,
          ◌>>=◌,
          set-middle before p q rest,
          sym (append_assoc before (q ∷ []) rest),
          sym (append_assoc before (q ∷ []) (walk step rest (step p e).1).0),
        )
        (subst
          (λ n.
            for_each (length rest) n body (with s ((before ++ (q ∷ [])) ++ rest) (step p e).1)
            ≡ ok (
              tt,
              with s ((before ++ (q ∷ [])) ++ (walk step rest (step p e).1).0)
                  (walk step rest (step p e).1).1,
            ))
          (length-append before (q ∷ []))
          (for_each-walk_good s (before ++ (q ∷ [])) rest (step p e).1
            (all_tail (good p) (all good rest) h)))

module _ {W : Type 0} (body : ℕ → SspCall W (Unit {0}))
    (step : Process → W × List Line → Process × (W × List Line))
    (runs : (s : State W) (i : ℕ) (p : Process)
      → get_elem? s.processes i ≡ some p
      → body i s ≡ ok (tt, stepped step s i p)) where
  pub for_each-walk_from :
      (s : State W) (before rest : List Process) (e : W × List Line)
      → for_each (length rest) (length before) body (with s (before ++ rest) e)
        ≡ ok (tt, with s (before ++ (walk step rest e).0) (walk step rest e).1)
  for_each-walk_from s before rest e =
      for_each-walk_good body (λ p. true) step (λ s i p h g. runs s i p h) s before rest e
        (all-true rest)

  pub for_each-walk :
      (s : State W)
      → for_each (length s.processes) 0 body s
        ≡ ok (tt, with s (walk step s.processes (env s)).0 (walk step s.processes (env s)).1)
  for_each-walk s = for_each-walk_from s [] s.processes (env s)
