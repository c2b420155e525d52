-- ===== src/Ssp/Walks.antt =====
-- Walks over the table of ssp/src/ssp.c that keep its shape, and a change of one process.
use kernel_modules.Common.{
  ℕ, zero, suc, ◌+◌, ◌≡◌, refl, sym, ap, ◌∙◌, true, false, List, [], ◌∷◌, ◌++◌, replicate, some,
  some-injective, length, length-set, get_elem?, set, pos,
}
use kernel_modules.Ssp.{Process, Line, State}
use kernel_modules.Ssp.Table.{with, blank, walk, length-walk, all_head, all_tail}
use kernel_modules.Ssp.Shows.{Shows, is_known, all_known}

module _ {W : Type 0} (step : Process → W × List Line → Process × (W × List Line))
    (fixes : (e : W × List Line) → step blank e ≡ (blank, e))
    (keeps : (p : Process) (e : W × List Line)
      → is_known p ≡ true
      → is_known (step p e).0 ≡ true) where
  -- The blank entries stay.
  pub walk-blanks :
      (used : List Process) (n : ℕ) (e : W × List Line)
      → walk step (used ++ replicate n blank) e
        ≡ ((walk step used e).0 ++ replicate n blank, (walk step used e).1)
  walk-blanks [] zero e = refl
  walk-blanks [] (suc n) e =
      ap (λ r. (r.0 ∷ (walk step (replicate n blank) r.1).0, (walk step (replicate n blank) r.1).1))
        (fixes e)
      ∙ ap (λ r. (blank ∷ r.0, r.1)) (walk-blanks [] n e)
  walk-blanks (p ∷ used) n e = ap (λ r. ((step p e).0 ∷ r.0, r.1)) (walk-blanks used n (step p e).1)

  walk-known :
      (used : List Process) (e : W × List Line)
      → all_known used ≡ true
      → all_known (walk step used e).0 ≡ true
  walk-known [] e h = refl
  walk-known (p ∷ used) e h =
      rw (keeps p e (all_head (is_known p) (all_known used) h))
        (walk-known used (step p e).1 (all_tail (is_known p) (all_known used) h))

  -- The state after the walk over the table with the processes `used`.
  abbrev pub walked : (s : State W) (used : List Process) → ℕ → W × List Line → State W
  walked s used free e = with s ((walk step used e).0 ++ replicate free blank) (walk step used e).1

  pub walked-Shows :
      (s : State W) (used : List Process) (e : W × List Line) (v : Shows s used)
      → Shows (walked s used v.free e) (walk step used e).0
  walked-Shows s used e v = record {
    free = v.free;
    table = refl;
    size = v.size ∙ ap (λ n. n + v.free) (sym same_length);
    newest = v.newest ∙ ap pos (sym same_length);
    room = v.room;
    known = walk-known used e v.known;
  }
    where
      same_length : length (walk step used e).0 ≡ length used
      same_length = length-walk step used e

  pub walk-table :
      (s : State W) (used : List Process) (e : W × List Line) (v : Shows s used)
      → walk step s.processes e
        ≡ ((walk step used e).0 ++ replicate v.free blank, (walk step used e).1)
  walk-table s used e v = ap (λ ps. walk step ps e) v.table ∙ walk-blanks used v.free e

blank_unknown :
    (n id : ℕ) (p : Process) → get_elem? (replicate n blank) id ≡ some p → is_known p ≡ false
blank_unknown zero id p h = absurd (cc h)
blank_unknown (suc n) zero p h = ap is_known (sym (some-injective h))
blank_unknown (suc n) (suc id) p h = blank_unknown n id p h

set-table :
    (used : List Process) (n id : ℕ) (p q : Process)
    → get_elem? (used ++ replicate n blank) id ≡ some p
    → is_known p ≡ true
    → set (used ++ replicate n blank) id q ≡ set used id q ++ replicate n blank
set-table [] n id p q h k = absurd (cc (k, blank_unknown n id p h))
set-table (u ∷ used) n zero p q h k = refl
set-table (u ∷ used) n (suc id) p q h k = ap (λ l. u ∷ l) (set-table used n id p q h k)

set-known :
    (used : List Process) (id : ℕ) (q : Process)
    → all_known used ≡ true
    → is_known q ≡ true
    → all_known (set used id q) ≡ true
set-known [] id q h k = refl
set-known (u ∷ used) zero q h k = rw k (all_tail (is_known u) (all_known used) h)
set-known (u ∷ used) (suc id) q h k =
    rw (all_head (is_known u) (all_known used) h)
      (set-known used id q (all_tail (is_known u) (all_known used) h) k)

pub set-Shows :
    {W : Type 0} (s : State W) (used : List Process) (id : ℕ) (p q : Process) (e : W × List Line)
    → Shows s used
    → get_elem? s.processes id ≡ some p
    → is_known p ≡ true
    → is_known q ≡ true
    → Shows (with s (set s.processes id q) e) (set used id q)
set-Shows s used id p q e v at_id k l = record {
  free = v.free;
  table =
      ap (λ ps. set ps id q) v.table
      ∙ set-table used v.free id p q (ap (λ ps. get_elem? ps id) (sym v.table) ∙ at_id) k;
  size = v.size ∙ ap (λ n. n + v.free) (sym (length-set used id q));
  newest = v.newest ∙ ap pos (sym (length-set used id q));
  room = v.room;
  known = set-known used id q v.known l;
}
