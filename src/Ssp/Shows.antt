-- ===== src/Ssp/Shows.antt =====
-- The table of ssp/src/ssp.c as the list of the processes that have an id, and how it grows.
use kernel_modules.Common.{
  ℕ, zero, suc, ◌+◌, ◌-◌, ◌*◌, ◌/◌, ◌≡◌, refl, sym, ap, ◌<◌, Bool, true, false, ◌&&◌, not, List, [],
  ◌∷◌, ◌++◌, Option, none, some, length, length-append, length-replicate, replicate, pos,
  is_negative, next_int, ok, ◌>>=◌, ◌>>◌, arith,
}
use mathlib.Core.Path.{subst}
use kernel_modules.Ssp.{
  Process, System, Line, State, for_each, ssp_proc_init, process_bytes, ssp_expand,
}
use kernel_modules.Ssp.Table.{with, env, blank, walk, for_each-walk_from, proc_init_runs}

abbrev pub has_name : Option (List ℕ) → Bool
has_name none = false
has_name (some name) = true

-- A process with an id: its pid is not negative, and it has a name.
abbrev pub is_known : Process → Bool
is_known p = not (is_negative p.pid) && has_name p.name

abbrev pub all_known : List Process → Bool
all_known [] = true
all_known (p ∷ rest) = is_known p && all_known rest

-- The table holds the processes `used`, with the ids 0, 1, … up to `ssp_id`, and blank entries after
-- them.
pub record Shows {W : Type 0} (s : State W) (used : List Process) : Type 0 where
  pub free : ℕ
  pub table : s.processes ≡ used ++ replicate free blank
  pub size : s.processes_size ≡ length used + free
  pub newest : next_int s.ssp_id ≡ pos (length used)
  pub room : 0 < s.processes_size
  pub known : all_known used ≡ true

module _ {W : Type 0} where
  abbrev blank_step : Process → W × List Line → Process × (W × List Line)
  blank_step p e = (blank, e)

  walk-blank :
      (n : ℕ) (garbage : Process) (e : W × List Line)
      → walk blank_step (replicate n garbage) e ≡ (replicate n blank, e)
  walk-blank zero garbage e = refl
  walk-blank (suc n) garbage e = ap (λ r. (blank ∷ r.0, r.1)) (walk-blank n garbage e)

  pub blanks :
      (s : State W) (before : List Process) (n : ℕ) (garbage : Process)
      → for_each n
          (length before)
          (λ i. ssp_proc_init (pos i))
          (record s { processes = before ++ replicate n garbage })
        ≡ ok (tt, record s { processes = before ++ replicate n blank })
  blanks s before n garbage =
      rw (walk-blank n garbage (env s), length-replicate n garbage) at walked
    where
      walked :
          for_each
            (length (replicate n garbage))
            (length before)
            (λ i. ssp_proc_init (pos i))
            (record s { processes = before ++ replicate n garbage })
          ≡ ok (
            tt,
            with s
                (before ++ (walk blank_step (replicate n garbage) (env s)).0)
                (walk blank_step (replicate n garbage) (env s)).1,
          )
      walked =
          for_each-walk_from (λ i. ssp_proc_init (pos i)) blank_step
            (λ s i p e. proc_init_runs s i p e) s before (replicate n garbage) (env s)

-- Nothing but the table and its counters counts.
pub Shows-env :
    {W : Type 0} (s : State W) (used : List Process) (e : W × List Line)
    → Shows s used
    → Shows (with s s.processes e) used
Shows-env s used e v = record {
  free = v.free;
  table = v.table;
  size = v.size;
  newest = v.newest;
  room = v.room;
  known = v.known;
}

pub table-length :
    {W : Type 0} (s : State W) (used : List Process)
    → Shows s used
    → s.processes_size ≡ length s.processes
table-length s used v = omega (
  arith,
  v.size,
  ap (λ (ps : List Process). length ps) v.table,
  length-append used (replicate v.free blank),
  length-replicate v.free blank,
)

-- The documented success of malloc and realloc, while there is memory.
abbrev pub HasMemory : {W : Type 0} → System W → Type 0
HasMemory {W = W} os = (bytes : ℕ) (w : W) → (os.allocate bytes w).0 ≡ true

module _ {W : Type 0} (os : System W) where
  -- The world after the allocation for `entries` entries.
  abbrev pub allocated : ℕ → W → W
  allocated entries w = (os.allocate (entries * process_bytes) w).1

  abbrev pub expanded : State W → State W
  expanded s = record s {
    processes = s.processes ++ replicate s.processes_size blank;
    processes_size = s.processes_size * 2;
    world = allocated (s.processes_size * 2) s.world;
  }

  pub expand_runs :
      (s : State W)
      → HasMemory os
      → s.processes_size ≡ length s.processes
      → ssp_expand os s ≡ ok (pos s.processes_size, expanded s)
  unfolding ssp_expand
  expand_runs s memory size = rw (
    memory (s.processes_size * 2 * process_bytes) s.world,
    half s.processes_size,
    other_half s.processes_size,
    ◌>>◌,
    ◌>>=◌,
    filled,
    half s.processes_size,
  )
    where
      half : (n : ℕ) → n * 2 / 2 ≡ n
      half n = omega arith

      other_half : (n : ℕ) → n * 2 - n ≡ n
      other_half n = omega arith

      grown : State W
      grown = record s {
        processes_size = s.processes_size * 2;
        world = allocated (s.processes_size * 2) s.world;
      }

      filled :
          for_each s.processes_size s.processes_size
            (λ i. ssp_proc_init (pos i))
            (record grown { processes = s.processes ++ replicate s.processes_size os.garbage })
          ≡ ok (tt, record grown { processes = s.processes ++ replicate s.processes_size blank })
      filled =
          subst
            (λ n.
              for_each s.processes_size n (λ i. ssp_proc_init (pos i))
                (record grown { processes = s.processes ++ replicate s.processes_size os.garbage })
              ≡ ok (
                tt,
                record grown { processes = s.processes ++ replicate s.processes_size blank },
              ))
            (sym size) (blanks grown s.processes s.processes_size os.garbage)
