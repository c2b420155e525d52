-- ===== src/Vms/Mmu/RoundTrip.antt =====
-- vms_read and vms_write at addresses that the page tables map: what they return and store.
use kernel_modules.Common.{ℕ, zero, suc, ◌+◌, ◌≤◌, ◌<◌, ◌^◌, ◌≡◌, ◌∙◌, true, some, arith, ◌⊎◌}
use mathlib.Core.Path.{subst}
use kernel_modules.Vms.Memory.{load, store, load-store_self, load-store_apart}
use kernel_modules.Vms.Machine.{Machine, ok, ◌>>=◌, ◌>>◌, mapped}
use kernel_modules.Vms.Machine.Laws.{load_word_lem, store_word_lem}
use kernel_modules.Vms.Pte.{read, write}
use kernel_modules.Vms.Mmu.{mmu, vms_read, vms_write}
use kernel_modules.Vms.Mmu.Walk.{mmu-walk}
use kernel_modules.Vms.Mmu.Access.{
  lookup, lookup_here, lookup_below, lookup-clear, walk-lookup, physical, translate_runs,
  permitted_runs, walked, Apart, lookup-store,
}

module _ (s : Machine) (va entry : ℕ) (found : lookup s va 2 s.root ≡ some entry) where
  entry_mapped : mapped s entry 8 ≡ true
  entry_mapped = let clear = lookup-clear s va 2 s.root entry found in ground arith

  mmu_runs : mmu va s ≡ ok (entry, s)
  mmu_runs = mmu-walk va s ∙ walk-lookup s va 2 s.root entry found

  module _ (inside : mapped s (physical s va entry) 4 ≡ true) where
    pub read_runs :
        read (load 8 s.memory entry) ≡ true
        → vms_read va s ≡ ok (load 4 s.memory (physical s va entry), s)
    unfolding vms_read
    read_runs may = rw (
      mmu_runs,
      ◌>>=◌,
      ◌>>◌,
      permitted_runs s va entry entry_mapped read may,
      translate_runs s va entry entry_mapped,
      load_word_lem s 4 _ inside,
    )

    pub write_runs :
        (value : ℕ)
        → write (load 8 s.memory entry) ≡ true
        → vms_write va value s
          ≡ ok (tt, record s { memory = store 4 s.memory (physical s va entry) value })
    unfolding vms_write
    write_runs value may = rw (
      mmu_runs,
      ◌>>=◌,
      ◌>>◌,
      permitted_runs s va entry entry_mapped write may,
      translate_runs s va entry entry_mapped,
      store_word_lem s 4 _ value inside,
    )

-- The state after an int was stored at `p`.
abbrev pub stored : Machine → ℕ → ℕ → Machine
stored s p value = record s { memory = store 4 s.memory p value }

-- The address maps to the int at `p` through the level 0 entry at `entry`, with no fault on the
-- way.
abbrev pub MapsTo : Machine → ℕ → ℕ → ℕ → Type 0
MapsTo s va entry p =
    (lookup s va 2 s.root ≡ some entry) × (physical s va entry ≡ p) × (mapped s p 4 ≡ true)

module _ (s : Machine) (va entry p : ℕ) (maps : MapsTo s va entry p) where
  inside : mapped s (physical s va entry) 4 ≡ true
  inside = rw maps.1 maps.2

  read_maps : read (load 8 s.memory entry) ≡ true → vms_read va s ≡ ok (load 4 s.memory p, s)
  read_maps may = rw maps.1 at (read_runs s va entry maps.0 inside may)

  write_maps :
      (value : ℕ)
      → write (load 8 s.memory entry) ≡ true
      → vms_write va value s ≡ ok (tt, stored s p value)
  write_maps value may = rw maps.1 at (write_runs s va entry maps.0 inside value may)

-- The entry that the lookup finds is one that it reads.
lookup-Apart :
    (s : Machine) (va level pt a p : ℕ)
    → lookup s va level pt ≡ some a
    → Apart p (walked s va level pt)
    → (a + 8 ≤ p) ⊎ (p + 4 ≤ a)
unfolding walked
lookup-Apart s va zero pt a p h apart =
    subst (λ x. (x + 8 ≤ p) ⊎ (p + 4 ≤ x)) (lookup_here s va pt a h).0 apart.0
lookup-Apart s va (suc level) pt a p h apart =
    lookup-Apart s va level _ a p (lookup_below s va level pt a h).1 apart.1

module _ (s : Machine) (va entry q p value : ℕ) (maps : MapsTo s va entry q)
    (apart : Apart p (walked s va 2 s.root)) where
  same_entry : load 8 (store 4 s.memory p value) entry ≡ load 8 s.memory entry
  same_entry =
      load-store_apart 8 4 s.memory entry p value (lookup-Apart s va 2 s.root entry p maps.0 apart)

  -- A store apart from the tables keeps what the address maps to.
  stored-MapsTo : MapsTo (stored s p value) va entry q
  unfolding mapped
  stored-MapsTo = (lookup-store s va 2 s.root p value apart ∙ maps.0, rw same_entry maps.1, maps.2)

  stored-read :
      read (load 8 s.memory entry) ≡ true
      → vms_read va (stored s p value) ≡ ok (load 4 (store 4 s.memory p value) q, stored s p value)
  stored-read may = read_maps (stored s p value) va entry q stored-MapsTo (rw same_entry may)

-- An int written to an address that maps to a readable and writable place outside its own page
-- tables is what the next read of that address returns; the two calls store the int at that place
-- and change nothing else of the state.
pub read-write :
    (s : Machine) (va entry p value : ℕ)
    → MapsTo s va entry p
    → Apart p (walked s va 2 s.root)
    → read (load 8 s.memory entry) ≡ true
    → write (load 8 s.memory entry) ≡ true
    → value < 2 ^ 32
    → (vms_write va value >> vms_read va) s ≡ ok (value, stored s p value)
read-write s va entry p value maps apart readable writable fits = rw (
  write_maps s va entry p maps value writable,
  ◌>>◌,
  stored-read s va entry p p value maps apart readable,
  load-store_self 4 s.memory p value fits,
)

-- A write to one address leaves what another one reads: the other address maps to a readable int
-- that does not meet the written one, and the written one lies outside the tables of the other.
pub read-write_other :
    (s : Machine) (va entry p value vb other q : ℕ)
    → MapsTo s va entry p
    → write (load 8 s.memory entry) ≡ true
    → MapsTo s vb other q
    → read (load 8 s.memory other) ≡ true
    → Apart p (walked s vb 2 s.root)
    → ((q + 4 ≤ p) ⊎ (p + 4 ≤ q))
    → (vms_write va value >> vms_read vb) s ≡ ok (load 4 s.memory q, stored s p value)
read-write_other s va entry p value vb other q maps writable maps' readable apart disjoint = rw (
  write_maps s va entry p maps value writable,
  ◌>>◌,
  stored-read s vb other q p value maps' apart readable,
  load-store_apart 4 4 s.memory q p value disjoint,
)
