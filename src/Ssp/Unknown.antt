-- ===== src/Ssp/Unknown.antt =====
-- ssp_unknown of ssp/src/ssp.c: every child that has ended is taken, and an unknown one is added.
use kernel_modules.Common.{
  ℕ, zero, suc, ◌*◌, ◌<◌, ◌≡◌, refl, ap, ◌∙◌, Bool, ◌||◌, true, false, ◌==◌, ltb, if◌then◌else◌,
  List, [], ◌∷◌, ◌++◌, replicate, some, length, get_elem?, get_elem?-set, set_twice, ℤ, pos, negsuc,
  minus_one, is_negative, same_int, codes, ok, ◌>>=◌, ◌>>◌, Bool-cases, inl, inr, arith,
}
use kernel_modules.Ssp.{Process, Waited, System, Line, State}
use kernel_modules.Ssp.Status.{is_positive}
use kernel_modules.Ssp.Print.{find_pid, adopt, unknown_loop}
use kernel_modules.Ssp.Table.{env, put, named_process, blank, proc_add_runs}
use kernel_modules.Ssp.Shows.{Shows, Shows-env, HasMemory, allocated}
use kernel_modules.Ssp.Grow.{opened, opened-Opened, take_id_runs, slot}
use kernel_modules.Ssp.Create.{added, added-Shows}
use kernel_modules.Ssp.Decode.{decoded, exit_runs}

-- The entry of a child that ssp_create did not make.
abbrev pub unknown_entry : Waited → Process
unknown_entry w = named_process w.result (codes "<unknown>") (decoded w.word (pos 0))

-- A process of the list has the pid.
abbrev pub is_listed : ℤ → List Process → Bool
is_listed pid [] = false
is_listed pid (p ∷ rest) = same_int p.pid pid || is_listed pid rest

-- The list of processes with a child that has ended: a process that is there stays as it is.
abbrev pub adopt_one : List Process → Waited → List Process
adopt_one used w = if is_listed w.result used then used else used ++ (unknown_entry w ∷ [])

abbrev pub adopt_all : List Process → List Waited → List Process
adopt_all used [] = used
adopt_all used (w ∷ rest) = adopt_all (adopt_one used w) rest

positive_not_negative : (i : ℤ) → is_positive i ≡ true → is_negative i ≡ false
positive_not_negative (pos n) h = refl
positive_not_negative (negsuc n) h = absurd (cc h)

positive_not_zero : (i : ℤ) → is_positive i ≡ true → same_int i (pos 0) ≡ false
positive_not_zero (pos n) h = ground arith
positive_not_zero (negsuc n) h = absurd (cc h)

positive_not_blank : (i : ℤ) → is_positive i ≡ true → same_int minus_one i ≡ false
positive_not_blank (pos n) h = refl
positive_not_blank (negsuc n) h = absurd (cc h)

negative_not_positive : (i : ℤ) → is_negative i ≡ true → is_positive i ≡ false
negative_not_positive (pos n) h = absurd (cc h)
negative_not_positive (negsuc n) h = refl

zero_not_positive : (i : ℤ) → same_int i (pos 0) ≡ true → is_positive i ≡ false
zero_not_positive (pos n) h = ground arith
zero_not_positive (negsuc n) h = refl

positive_else : (i : ℤ) → is_negative i ≡ false → same_int i (pos 0) ≡ false → is_positive i ≡ true
positive_else (pos n) h k = ground arith
positive_else (negsuc n) h k = absurd (cc h)

-- The search of the code is the one of the list; the blank entries have no pid of a child.
find_pid-is_listed :
    (used : List Process) (n : ℕ) (i : ℤ)
    → is_positive i ≡ true
    → find_pid i (used ++ replicate n blank) ≡ is_listed i used
unfolding find_pid
find_pid-is_listed [] zero i h = refl
find_pid-is_listed [] (suc n) i h = rw (positive_not_blank i h) (find_pid-is_listed [] n i h)
find_pid-is_listed (p ∷ used) n i h =
    rw (find_pid-is_listed used n i h) (either (same_int p.pid i) (is_listed i used))
  where
    either : (a b : Bool) → (if a then true else b) ≡ (a || b)
    either a b = ground arith

module _ {W : Type 0} (os : System W) where
  abbrev adopted : State W → List Process → Waited → State W
  adopted s used w =
      if is_listed w.result used then s else added os s (length used) (unknown_entry w)

  adopt_runs :
      (s : State W) (used : List Process) (w : Waited)
      → HasMemory os
      → Shows s used
      → is_positive w.result ≡ true
      → adopt os w s ≡ ok (tt, adopted s used w)
  unfolding adopt
  adopt_runs s used w memory v h =
      rw (ap (find_pid w.result) v.table ∙ find_pid-is_listed used v.free w.result h)
        (elim (Bool-cases (is_listed w.result used)) [
          | inl found ↦ rw (found, ◌>>=◌) refl
          | inr fresh ↦ rw (
            fresh,
            ◌>>=◌,
            take_id_runs os s used memory v,
            proc_add_runs o n blank w.result (codes "<unknown>") (pos 0) at_slot,
            ◌>>◌,
            exit_runs (put o n start) n start w.word
                (get_elem?-set o.processes n blank start at_slot),
            set_twice o.processes n start (unknown_entry w),
          )
        ])
    where
      n : ℕ
      n = length used

      o : State W
      o = opened os s n

      start : Process
      start = named_process w.result (codes "<unknown>") (pos 0)

      at_slot : get_elem? o.processes n ≡ some blank
      at_slot = slot os o used (opened-Opened os s used v)

  adopted-Shows :
      (s : State W) (used : List Process) (w : Waited)
      → Shows s used
      → is_positive w.result ≡ true
      → Shows (adopted s used w) (adopt_one used w)
  adopted-Shows s used w v h = elim (Bool-cases (is_listed w.result used)) [
    | inl found ↦ rw found v
    | inr fresh ↦ rw fresh (
        added-Shows os s used (codes "<unknown>") w.result (decoded w.word (pos 0)) v
          (positive_not_negative w.result h))
  ]

  -- What the code relies on about waitpid(-1, WNOHANG), with `ended` the number of children that
  -- have ended and are not taken: a negative result means that there is no child, a positive one
  -- takes a child, and memory is no matter.
  pub record Reaps (ended : W → ℕ) : Type 0 where
    pub no_child :
        (w : W)
        → is_negative (os.waitpid minus_one true w).0.result ≡ true
        → os.errno (os.waitpid minus_one true w).1 ≡ os.echild
    pub fewer :
        (w : W)
        → is_positive (os.waitpid minus_one true w).0.result ≡ true
        → ended (os.waitpid minus_one true w).1 < ended w
    pub memory_aside : (n : ℕ) (w : W) → ended (allocated os n w) ≡ ended w

  -- From world to world, waitpid gives the children of the list and then none.
  pub data Takes : W → List Waited → W → Type 0 where
    last :
        (w : W)
        → is_positive (os.waitpid minus_one true w).0.result ≡ false
        → Takes w [] (os.waitpid minus_one true w).1
    takes :
        (w : W) (rest : List Waited) (u : W)
        → is_positive (os.waitpid minus_one true w).0.result ≡ true
        → Takes (os.waitpid minus_one true w).1 rest u
        → Takes w ((os.waitpid minus_one true w).0 ∷ rest) u
    grows :
        (n : ℕ) (w : W) (rest : List Waited) (u : W)
        → Takes (allocated os n w) rest u
        → Takes w rest u

  -- The surroundings of a state in which a child was taken in: those before, or after an allocation.
  adopted-env :
      (P : W × List Line → Type 0) (s : State W) (used : List Process) (w : Waited)
      → P (env s)
      → P (allocated os (s.processes_size * 2) s.world, s.output)
      → P (env (adopted s used w))
  adopted-env P s used w same grown = elim (Bool-cases (is_listed w.result used)) [
    | inl found ↦ rw found same
    | inr fresh ↦ elim (Bool-cases (ltb (length used) s.processes_size)) [
      | inl fits ↦ rw (fresh, fits) same
      | inr full ↦ rw (fresh, full) grown
    ]
  ]

  -- The result of ssp_unknown.
  pub record Reaped (s : State W) (used : List Process) (fuel : ℕ) : Type 0 where
    pub taken : List Waited
    pub after : State W
    pub runs : unknown_loop os fuel s ≡ ok (tt, after)
    pub shows : Shows after (adopt_all used taken)
    pub taking : Takes s.world taken after.world
    pub quiet : after.output ≡ s.output

  module _ (ended : W → ℕ) (memory : HasMemory os) (reaps : Reaps ended) where
    pub unknown_lem :
        (fuel : ℕ) (s : State W) (used : List Process)
        → Shows s used
        → ended s.world < fuel
        → Reaped s used fuel
    unfolding unknown_loop
    unknown_lem zero s used v h = absurd (omega arith)
    unknown_lem (suc fuel) s used v h = elim (Bool-cases (is_negative r.0.result)) [
      | inl negative ↦ record {
        taken = [];
        after = s1;
        runs = rw (negative, ended_code negative, ◌>>=◌);
        shows = v1;
        taking = last s.world (negative_not_positive r.0.result negative);
        quiet = refl;
      }
      | inr other ↦ elim (Bool-cases (same_int r.0.result (pos 0))) [
        | inl no_one ↦ record {
          taken = [];
          after = s1;
          runs = rw (other, no_one, ◌>>=◌);
          shows = v1;
          taking = last s.world (zero_not_positive r.0.result no_one);
          quiet = refl;
        }
        | inr child ↦
            let positive = positive_else r.0.result other child in
            let later =
              unknown_lem fuel (adopted s1 used r.0) (adopt_one used r.0)
                (adopted-Shows s1 used r.0 v1 positive) (less positive) in
            record {
              taken = r.0 ∷ later.taken;
              after = later.after;
              runs =
                  rw (other, child, ◌>>◌, ◌>>=◌, adopt_runs s1 used r.0 memory v1 positive)
                    later.runs;
              shows = later.shows;
              taking = takes s.world later.taken later.after.world positive (
                  adopted-env
                    (λ e.
                      Takes e.0 later.taken later.after.world
                      → Takes r.1 later.taken later.after.world)
                    s1 used r.0 (λ t. t)
                    (λ t. grows (s.processes_size * 2) r.1 later.taken later.after.world t)
                    later.taking);
              quiet = later.quiet ∙ adopted-env (λ e. e.1 ≡ s.output) s1 used r.0 refl refl;
            }
      ]
    ]
      where
        r : Waited × W
        r = os.waitpid minus_one true s.world

        s1 : State W
        s1 = record s { world = r.1 }

        v1 : Shows s1 used
        v1 = Shows-env s used (r.1, s.output) v

        ended_code : is_negative r.0.result ≡ true → (os.errno r.1 == os.echild) ≡ true
        ended_code negative = ground (arith, reaps.no_child s.world negative)

        less : is_positive r.0.result ≡ true → ended (adopted s1 used r.0).world < fuel
        less positive =
            adopted-env (λ e. ended e.0 < fuel) s1 used r.0
              (omega (arith, h, reaps.fewer s.world positive))
              (omega (
                arith,
                h,
                reaps.fewer s.world positive,
                reaps.memory_aside (s.processes_size * 2) r.1,
              ))
