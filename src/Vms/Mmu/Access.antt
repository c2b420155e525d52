-- ===== src/Vms/Mmu/Access.antt =====
-- vms_read and vms_write at an address whose page tables need no fault, against a plain lookup.
use kernel_modules.Common.{
  ℕ, zero, suc, ◌+◌, ◌*◌, ◌/◌, ◌%◌, ◌^◌, ◌≤◌, ◌≡◌, ap, Bool, true, false, not, ◌&&◌, Option, none,
  some, if◌then◌else◌, arith, ◌⊎◌, inl, inr, bit_and, bit_or, bit_and_low, bit_or_fields,
  Bool-cases, List, [], ◌∷◌,
}
use mathlib.Core.Path.{subst}
use kernel_modules.Vms.Memory.{load, store, load-store_apart}
use kernel_modules.Vms.Machine.{Machine, ok, ◌>>=◌, page_size, mapped}
use kernel_modules.Vms.Machine.Laws.{load_word_lem}
use kernel_modules.Vms.Pte.{get_ppn}
use kernel_modules.Vms.Pte.Arith.{get_ppn_lem}
use kernel_modules.Vms.PageTable.{pte_entry, ppn_to_page}
use kernel_modules.Vms.Mmu.{should_generate_fault, permitted, translate_address}
use kernel_modules.Vms.Mmu.Walk.{resolve, walk}

-- An entry that the walk accepts at this level with no fault, and its word.
abbrev pub clear_at : Machine → ℕ → ℕ → Bool
clear_at s level entry =
    mapped s entry 8 && not (should_generate_fault level (load 8 s.memory entry))

-- The address of the level 0 entry, if no level of the walk faults.
unfoldable pub lookup : Machine → ℕ → ℕ → ℕ → Option ℕ
lookup s va zero pt = let a = pte_entry pt va 0 in if clear_at s 0 a then some a else none
lookup s va (suc level) pt =
    let a = pte_entry pt va (suc level) in
    let below = lookup s va level (ppn_to_page (get_ppn (load 8 s.memory a))) in
    if clear_at s (suc level) a then below else none

module _ (s : Machine) (va level pt : ℕ)
    (clear : clear_at s level (pte_entry pt va level) ≡ true) where
  clear_parts :
      (mapped s (pte_entry pt va level) 8 ≡ true)
      × (should_generate_fault level (load 8 s.memory (pte_entry pt va level)) ≡ false)
  clear_parts = ground arith

  pub resolve_clear : resolve va level pt s ≡ ok (load 8 s.memory (pte_entry pt va level), s)
  unfolding resolve
  resolve_clear = rw (load_word_lem s 8 _ clear_parts.0, ◌>>=◌, clear_parts.1)

-- What an answer of the lookup says of the level that it starts at.
pub lookup_here :
    (s : Machine) (va pt a : ℕ)
    → lookup s va 0 pt ≡ some a
    → (pte_entry pt va 0 ≡ a) × (clear_at s 0 (pte_entry pt va 0) ≡ true)
unfolding lookup
lookup_here s va pt a h = elim (Bool-cases (clear_at s 0 (pte_entry pt va 0))) [
  | inl clear ↦ (cc (rw clear at h), clear)
  | inr fault ↦ absurd (cc (rw fault at h))
]

pub lookup_below :
    (s : Machine) (va level pt a : ℕ)
    → lookup s va (suc level) pt ≡ some a
    → (clear_at s (suc level) (pte_entry pt va (suc level)) ≡ true)
      × (lookup s va level (ppn_to_page (get_ppn (load 8 s.memory (pte_entry pt va (suc level)))))
          ≡ some a)
unfolding lookup
lookup_below s va level pt a h =
    elim (Bool-cases (clear_at s (suc level) (pte_entry pt va (suc level)))) [
      | inl clear ↦ (clear, rw clear at h)
      | inr fault ↦ absurd (cc (rw fault at h))
    ]

pub walk-lookup :
    (s : Machine) (va level pt a : ℕ)
    → lookup s va level pt ≡ some a
    → walk va level pt s ≡ ok (a, s)
unfolding walk
walk-lookup s va zero pt a h =
    let (e, clear) = lookup_here s va pt a h in rw (resolve_clear s va 0 pt clear, ◌>>=◌, e)
walk-lookup s va (suc level) pt a h =
    let (clear, below) = lookup_below s va level pt a h in
    rw (resolve_clear s va (suc level) pt clear, ◌>>=◌) (walk-lookup s va level _ a below)

-- The answer is itself a clear entry at level 0.
pub lookup-clear :
    (s : Machine) (va level pt a : ℕ) → lookup s va level pt ≡ some a → clear_at s 0 a ≡ true
lookup-clear s va zero pt a h =
    let (e, clear) = lookup_here s va pt a h in subst (λ x. clear_at s 0 x ≡ true) e clear
lookup-clear s va (suc level) pt a h =
    lookup-clear s va level _ a (lookup_below s va level pt a h).1

-- The physical address: the page that the entry names, and the offset in it.
abbrev pub physical : Machine → ℕ → ℕ → ℕ
physical s va entry = get_ppn (load 8 s.memory entry) * page_size + va % page_size

-- The two parts of the address do not meet.
physical_or :
    (e va : ℕ)
    → bit_or (ppn_to_page (get_ppn e)) (bit_and va 0xFFF) ≡ get_ppn e * page_size + va % page_size
unfolding ppn_to_page
physical_or e va = ground (
  arith,
  get_ppn_lem e,
  bit_or_fields 12 (get_ppn e) (va % 2 ^ 12) (omega arith),
  bit_and_low 12 (va / 2 ^ 12) (va % 2 ^ 12) (omega arith),
)

module _ (s : Machine) (va entry : ℕ) (here : mapped s entry 8 ≡ true) where
  pub translate_runs : translate_address va entry s ≡ ok (physical s va entry, s)
  unfolding translate_address
  translate_runs =
      rw (load_word_lem s 8 entry here, ◌>>=◌)
        (ap (λ p. ok (p, s)) (physical_or (load 8 s.memory entry) va))

  pub permitted_runs :
      (may : ℕ → Bool) → may (load 8 s.memory entry) ≡ true → permitted may va entry s ≡ ok (tt, s)
  unfolding permitted
  permitted_runs may h = rw (load_word_lem s 8 entry here, ◌>>=◌, h)

-- The entries that the lookup reads.
unfoldable pub walked : Machine → ℕ → ℕ → ℕ → List ℕ
walked s va zero pt = pte_entry pt va 0 ∷ []
walked s va (suc level) pt =
    let a = pte_entry pt va (suc level) in
    a ∷ walked s va level (ppn_to_page (get_ppn (load 8 s.memory a)))

-- An int at `p` meets none of the entries.
abbrev pub Apart : ℕ → List ℕ → Type 0
Apart p [] = Unit
Apart p (a ∷ rest) = ((a + 8 ≤ p) ⊎ (p + 4 ≤ a)) × Apart p rest

pub lookup-store :
    (s : Machine) (va level pt p v : ℕ)
    → Apart p (walked s va level pt)
    → lookup (record s { memory = store 4 s.memory p v }) va level pt ≡ lookup s va level pt
unfolding lookup walked mapped
lookup-store s va zero pt p v h = rw (load-store_apart 8 4 s.memory (pte_entry pt va 0) p v h.0)
lookup-store s va (suc level) pt p v h = rw (
  load-store_apart 8 4 s.memory (pte_entry pt va (suc level)) p v h.0,
  lookup-store s va level _ p v h.1,
)
