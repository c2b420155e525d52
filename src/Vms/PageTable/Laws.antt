-- ===== src/Vms/PageTable/Laws.antt =====
-- The address arithmetic of vms/src/page_table.c, and page numbers through an entry.
use Prim.Native.Nat.{bit_and}
use kernel_modules.Common.{
  Bool-cases, ltb, ℕ, zero, suc, ◌+◌, ◌*◌, ◌/◌, ◌%◌, ◌^◌, ◌≤◌, ◌<◌, ◌≡◌, ◌≢◌, ◌⊎◌, inl, inr, ◌==◌,
  arith, bit_and_high, bit_and_low, bit_and-ones, bit_and_comm,
}
use kernel_modules.Vms.Machine.{Machine, assertion, ok, stop, page_size}
use kernel_modules.Vms.Pte.{get_ppn, set_ppn}
use kernel_modules.Vms.Pte.Arith.{get_ppn_lem, set_ppn_lem}
use kernel_modules.Vms.PageTable.{index, pte_entry, ppn_to_page, page_to_ppn}

-- Nine bits from bit `s` on.
nine_bits : (s q l : ℕ) → l < 2 ^ s → bit_and (511 * 2 ^ s) (q * 2 ^ s + l) ≡ q % 512 * 2 ^ s
nine_bits s q l h = ground (
  arith,
  bit_and_comm (511 * 2 ^ s) (q * 2 ^ s + l),
  bit_and_high s q l 511 h,
  bit_and_low 9 (q / 512) (q % 512) (omega arith),
)

-- The levels 0, 1 and 2 are indexed by the nine bits of the address from bit 12, 21 and 30 on, and
-- the three indices and the offset make up the low 39 bits of the address.
pub index_bits_of :
    (va : ℕ)
    → (index va 0 ≡ va / 2 ^ 12 % 512)
      × (index va 1 ≡ va / 2 ^ 21 % 512)
      × (index va 2 ≡ va / 2 ^ 30 % 512)
      × (index va 2 * 2 ^ 30 + index va 1 * 2 ^ 21 + index va 0 * 2 ^ 12 + va % page_size
          ≡ va % 2 ^ 39)
unfolding index
index_bits_of va = ground (
  arith,
  nine_bits 12 (va / 2 ^ 12) (va % 2 ^ 12) (omega arith),
  nine_bits 21 (va / 2 ^ 21) (va % 2 ^ 21) (omega arith),
  nine_bits 30 (va / 2 ^ 30) (va % 2 ^ 30) (omega arith),
)

pub index-lt : (va level : ℕ) → level ≤ 2 → index va level < 512
index-lt va zero h = omega (arith, index_bits_of va)
index-lt va (suc zero) h = omega (arith, index_bits_of va)
index-lt va (suc (suc zero)) h = omega (arith, index_bits_of va)
index-lt va (suc (suc (suc level))) h = absurd (omega arith)

-- The entry of a page table that an address selects lies whole in the table's page.
pub pte_entry_bounds :
    (pt va level : ℕ)
    → level ≤ 2
    → (pt ≤ pte_entry pt va level) × (pte_entry pt va level + 8 ≤ pt + page_size)
unfolding pte_entry
pte_entry_bounds pt va level h = entry (index va level) (index-lt va level h)
  where
    entry : (i : ℕ) → i < 512 → (pt ≤ pt + 8 * i) × (pt + 8 * i + 8 ≤ pt + page_size)
    entry i h = omega arith

top_bits : (p : ℕ) → p < 2 ^ 64 → bit_and p 0xF000000000000000 ≡ p / 2 ^ 60 * 2 ^ 60
top_bits p h = ground (
  arith,
  bit_and_high 60 (p / 2 ^ 60) (p % 2 ^ 60) 15 (omega arith),
  bit_and-ones 4 (p / 2 ^ 60) (omega arith),
)

-- vms_page_to_ppn on any 64-bit pointer: the number of an aligned page below 2 ^ 60, from which
-- vms_ppn_to_page gives the pointer back; an assertion for every other pointer.
pub page_to_ppn_lem :
    (p : ℕ) (s : Machine)
    → p < 2 ^ 64
    → ((p % page_size ≡ 0)
        × (p < 2 ^ 60)
        × (page_to_ppn p s ≡ ok (p / page_size, s))
        × (ppn_to_page (p / page_size) ≡ p))
      ⊎ (((p % page_size ≢ 0) ⊎ (2 ^ 60 ≤ p)) × (page_to_ppn p s ≡ stop assertion))
unfolding page_to_ppn ppn_to_page
page_to_ppn_lem p s h = elim (Bool-cases (p % page_size == 0)) [
  | inr odd ↦ inr (inl (ground (arith, odd)), ground (arith, odd))
  | inl even ↦ elim (Bool-cases (ltb p (2 ^ 60))) [
    | inl low ↦ inl (
      ground (arith, even),
      ground (arith, low),
      ground (arith, even, low, top_bits p h),
      ground (arith, even),
    )
    | inr high ↦ inr (inr (ground (arith, high)), ground (arith, even, high, top_bits p h))
  ]
]

pub page_to_ppn_runs :
    (p : ℕ) (s : Machine) → p % page_size ≡ 0 → p < 2 ^ 60 → page_to_ppn p s ≡ ok (p / page_size, s)
page_to_ppn_runs p s aligned low = elim (page_to_ppn_lem p s (omega arith)) [
  | inl good ↦ good.2
  | inr (inl odd, bad) ↦ absurd (odd aligned)
  | inr (inr high, bad) ↦ absurd (omega arith)
]

pub ppn_through_entry :
    (e p : ℕ)
    → e < 2 ^ 64
    → p % page_size ≡ 0
    → p < 2 ^ 60
    → ppn_to_page (get_ppn (set_ppn e (p / page_size))) ≡ p % 2 ^ 56
unfolding ppn_to_page
ppn_through_entry e p h a b =
    omega (arith, set_ppn_lem e (p / page_size) h, get_ppn_lem (set_ppn e (p / page_size)))

-- For every 64-bit pointer and 64-bit entry, vms_page_to_ppn fails its assertion if the pointer is
-- not aligned or not below 2 ^ 60; for every other pointer it gives a number, and the page that an
-- entry with that number then names is the pointer's low 56 bits, so that the pages from 2 ^ 56 to
-- 2 ^ 60, which the assertion lets pass, come back as other pages.
pub page_through_entry :
    (e p : ℕ) (s : Machine)
    → e < 2 ^ 64
    → p < 2 ^ 64
    → ((p % page_size ≡ 0)
        × (p < 2 ^ 60)
        × (ppn : ℕ) × (page_to_ppn p s ≡ ok (ppn, s))
        × (ppn_to_page (get_ppn (set_ppn e ppn)) ≡ p % 2 ^ 56))
      ⊎ (((p % page_size ≢ 0) ⊎ (2 ^ 60 ≤ p)) × (page_to_ppn p s ≡ stop assertion))
page_through_entry e p s h k = elim (page_to_ppn_lem p s k) [
  | inl (aligned, low, runs, back) ↦
      inl (aligned, low, p / page_size, runs, ppn_through_entry e p h aligned low)
  | inr bad ↦ inr bad
]
