-- ===== src/Ssp/Grow.antt =====
-- ssp/src/ssp.c: how an id is taken, with the array doubled when it is full.
use kernel_modules.Common.{
  ℕ, zero, suc, ◌+◌, ◌-◌, ◌≡◌, refl, sym, ap, ◌∙◌, ◌<◌, true, false, ltb, if◌then◌else◌, List, [],
  ◌∷◌, ◌++◌, some, length, length-append, get_elem?, get_elem?-middle, set, set-middle,
  append_assoc, append-nil, replicate, Bool-cases, inl, inr, pos, next_int, ok, ◌>>=◌, ◌>>◌, arith,
}
use kernel_modules.Ssp.{Process, System, State}
use kernel_modules.Ssp.Spawn.{take_id}
use kernel_modules.Ssp.Table.{put, blank}
use kernel_modules.Ssp.Shows.{
  Shows, HasMemory, expanded, expand_runs, table-length, is_known, all_known,
}

module _ {W : Type 0} (os : System W) where
  -- The state in which take_id leaves the table, for `n` processes before.
  abbrev pub opened : State W → ℕ → State W
  opened s n =
      if ltb n s.processes_size
      then record s { ssp_id = pos n }
      else record (expanded os s) { ssp_id = pos n }

  -- The entry of the id that take_id gives is blank.
  pub record Opened (t : State W) (used : List Process) : Type 0 where
    pub left : ℕ
    pub entries : t.processes ≡ used ++ (blank ∷ replicate left blank)
    pub total : t.processes_size ≡ length used + suc left
    pub taken : t.ssp_id ≡ pos (length used)

  Opened-fits :
      (s : State W) (used : List Process)
      → Shows s used
      → ltb (length used) s.processes_size ≡ true
      → Opened (record s { ssp_id = pos (length used) }) used
  Opened-fits s used v fits = from_free v.free v.table v.size
    where
      from_free :
          (free : ℕ)
          → s.processes ≡ used ++ replicate free blank
          → s.processes_size ≡ length used + free
          → Opened (record s { ssp_id = pos (length used) }) used
      from_free zero table size = absurd (ground (arith, size, fits))
      from_free (suc left) table size = record {
        left = left;
        entries = table;
        total = size;
        taken = refl;
      }

  Opened-full :
      (s : State W) (used : List Process)
      → Shows s used
      → ltb (length used) s.processes_size ≡ false
      → Opened (record (expanded os s) { ssp_id = pos (length used) }) used
  Opened-full s used v full = from_free v.free v.table v.size v.room
    where
      positive : (n : ℕ) → 0 < n → n ≡ suc (n - 1)
      positive n h = omega arith

      from_free :
          (free : ℕ)
          → s.processes ≡ used ++ replicate free blank
          → s.processes_size ≡ length used + free
          → 0 < s.processes_size
          → Opened (record (expanded os s) { ssp_id = pos (length used) }) used
      from_free (suc free) table size room = absurd (ground (arith, size, full))
      from_free zero table size room = record {
        left = s.processes_size - 1;
        entries =
            ap (λ (ps : List Process). ps ++ replicate s.processes_size blank)
              (table ∙ append-nil used)
            ∙ ap (λ n. used ++ replicate n blank) (positive s.processes_size room);
        total = omega (arith, size, room);
        taken = refl;
      }

  pub opened-Opened :
      (s : State W) (used : List Process) → Shows s used → Opened (opened s (length used)) used
  opened-Opened s used v = elim (Bool-cases (ltb (length used) s.processes_size)) [
    | inl fits ↦ rw fits (Opened-fits s used v fits)
    | inr full ↦ rw full (Opened-full s used v full)
  ]

  pub slot :
      (t : State W) (used : List Process)
      → Opened t used
      → get_elem? t.processes (length used) ≡ some blank
  slot t used o =
      ap (λ ps. get_elem? ps (length used)) o.entries
      ∙ get_elem?-middle used blank (replicate o.left blank)

  all_known-append :
      (used : List Process) (p : Process)
      → all_known used ≡ true
      → is_known p ≡ true
      → all_known (used ++ (p ∷ [])) ≡ true
  all_known-append [] p h k = rw k
  all_known-append (q ∷ used) p h k = ground (arith, all_known-append used p)

  pub fill :
      (t : State W) (used : List Process) (p : Process)
      → Opened t used
      → all_known used ≡ true
      → is_known p ≡ true
      → Shows (put t (length used) p) (used ++ (p ∷ []))
  fill t used p o known_before known = record {
    free = o.left;
    table =
        ap (λ ps. set ps (length used) p) o.entries
        ∙ set-middle used blank p (replicate o.left blank)
        ∙ sym (append_assoc used (p ∷ []) (replicate o.left blank));
    size = omega (arith, o.total, length-append used (p ∷ []));
    newest = ap next_int o.taken ∙ ap pos (sym (length-append used (p ∷ [])));
    room = omega (arith, o.total);
    known = all_known-append used p known_before known;
  }

  pub take_id_runs :
      (s : State W) (used : List Process)
      → HasMemory os
      → Shows s used
      → take_id os s ≡ ok (pos (length used), opened s (length used))
  unfolding take_id
  take_id_runs s used memory v = elim (Bool-cases (ltb (length used) s.processes_size)) [
    | inl fits ↦ rw (v.newest, fits) refl
    | inr full ↦ rw (
      v.newest,
      full,
      ◌>>◌,
      ◌>>=◌,
      expand_runs os (record s { ssp_id = pos (length used) }) memory (table-length s used v),
      exact s used v full,
    )
  ]
    where
      exact :
          (s : State W) (used : List Process)
          → Shows s used
          → ltb (length used) s.processes_size ≡ false
          → s.processes_size ≡ length used
      exact s used v full = ground (arith, v.size)
