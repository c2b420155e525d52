-- ===== src/Vms/Fork/Table.antt =====
-- The innermost loop of vms_fork_copy_on_write: the entries of one lowest table.
use kernel_modules.Common.{
  ℕ, zero, suc, ◌+◌, ◌*◌, ◌≤◌, ◌<◌, ◌≡◌, ◌≢◌, refl, sym, ap, ◌∙◌, true, some, arith, ◌⊎◌, inl, inr,
  Bool-cases, ◌==◌, List, get_elem?,
}
use mathlib.Core.Path.{subst}
use kernel_modules.Vms.Memory.{Memory, load, load_congr}
use kernel_modules.Vms.Machine.{
  Machine, ok, ◌>>=◌, ◌>>◌, page_size, max_pages, num_pte_entries, mapped,
}
use kernel_modules.Vms.Pte.{valid}
use kernel_modules.Vms.PageTable.{pte_entry_from_index}
use kernel_modules.Vms.Pages.{get_page_pointer}
use kernel_modules.Vms.Pages.Alloc.{IsValid}
use kernel_modules.Vms.Fault.Steps.{read_pte_runs}
use kernel_modules.Vms.Fault.Shared.{pages_apart}
use kernel_modules.Vms.Fork.{for_valid, share_data}
use kernel_modules.Vms.Fork.Entry.{at, ForkedEntry, uses, IsNamed, RoundDone, round_runs}

-- The references from the `n` entries from index `i` on of the table at `table` to page `q`.
unfoldable pub tally : Machine → ℕ → ℕ → ℕ → ℕ → ℕ
tally s table zero i q = 0
tally s table (suc n) i q =
    let rest = tally s table n (i + 1) q in uses s (load 8 s.memory (table + 8 * i)) q + rest

pub record TableForked (s : Machine) (src dst n i : ℕ) (m : Memory) (r : List ℕ) : Type 0 where
  pub still : IsValid (at s m r)
  pub entries :
      (x : ℕ)
      → i ≤ x
      → x < i + n
      → ForkedEntry
          (load 8 s.memory (src + 8 * x))
          (load 8 s.memory (dst + 8 * x))
          (load 8 m (src + 8 * x))
          (load 8 m (dst + 8 * x))
  pub outside :
      (b : ℕ)
      → (b < dst + 8 * i) ⊎ (dst + 8 * (i + n) ≤ b)
      → (b < src + 8 * i) ⊎ (src + 8 * (i + n) ≤ b)
      → m b ≡ s.memory b
  pub counts :
      (q old : ℕ)
      → get_elem? s.ref_num q ≡ some old
      → get_elem? r q ≡ some (old + 2 * tally s src n i q)

-- A word that keeps its bytes.
word_kept :
    (m w : Memory) (a : ℕ) → ((b : ℕ) → a ≤ b → b < a + 8 → w b ≡ m b) → load 8 w a ≡ load 8 m a
word_kept m w a kept = load_congr 8 w m a a (λ j h. kept (a + j) (omega arith) (omega arith))

uses_same : (s : Machine) (m : Memory) (r : List ℕ) (e q : ℕ) → uses (at s m r) e q ≡ uses s e q
unfolding uses get_page_pointer
uses_same s m r e q = refl

tally_same :
    (s : Machine) (m : Memory) (r : List ℕ) (table n i q : ℕ)
    → ((x : ℕ) → i ≤ x → x < i + n → load 8 m (table + 8 * x) ≡ load 8 s.memory (table + 8 * x))
    → tally (at s m r) table n i q ≡ tally s table n i q
unfolding tally
tally_same s m r table zero i q same = refl
tally_same s m r table (suc n) i q same =
    let rest = tally_same s m r table n (i + 1) q (λ x lo hi. same x (omega arith) (omega arith)) in
    rw
      (
        same i (omega arith) (omega arith),
        uses_same s m r (load 8 s.memory (table + 8 * i)) q,
        rest,
      )
      refl

module _ (src dst : ℕ) (apart : (src + page_size ≤ dst) ⊎ (dst + page_size ≤ src)) where
  module _ (s : Machine) (i : ℕ) (m1 : Memory) (r1 : List ℕ)
      (p : RoundDone s (src + 8 * i) (dst + 8 * i) m1 r1) where
    later_src :
        (x : ℕ) → i + 1 ≤ x → x < 512 → load 8 m1 (src + 8 * x) ≡ load 8 s.memory (src + 8 * x)
    later_src x lo hi =
        word_kept s.memory m1 (src + 8 * x)
          (λ b h k. p.outside b (ground arith) (inr (omega arith)))

    later_dst :
        (x : ℕ) → i + 1 ≤ x → x < 512 → load 8 m1 (dst + 8 * x) ≡ load 8 s.memory (dst + 8 * x)
    later_dst x lo hi =
        word_kept s.memory m1 (dst + 8 * x)
          (λ b h k. p.outside b (inr (omega arith)) (ground arith))

    -- The first round and then the others.
    module _ (n : ℕ) (m2 : Memory) (r2 : List ℕ) (inside : i + suc n ≤ 512)
        (w : TableForked (at s m1 r1) src dst n (i + 1) m2 r2) where
      first_src : load 8 m2 (src + 8 * i) ≡ load 8 m1 (src + 8 * i)
      first_src =
          word_kept m1 m2 (src + 8 * i) (λ b h k. w.outside b (ground arith) (inl (omega arith)))

      first_dst : load 8 m2 (dst + 8 * i) ≡ load 8 m1 (dst + 8 * i)
      first_dst =
          word_kept m1 m2 (dst + 8 * i) (λ b h k. w.outside b (inl (omega arith)) (ground arith))

      entry_at :
          (x : ℕ)
          → i ≤ x
          → x < i + suc n
          → ForkedEntry
              (load 8 s.memory (src + 8 * x))
              (load 8 s.memory (dst + 8 * x))
              (load 8 m2 (src + 8 * x))
              (load 8 m2 (dst + 8 * x))
      entry_at x lo hi = elim (Bool-cases (x == i)) [
        | inl same ↦
            let eq : i ≡ x = ground (arith, same) in
            subst
              (λ z.
                ForkedEntry (load 8 s.memory (src + 8 * z)) (load 8 s.memory (dst + 8 * z))
                  (load 8 m2 (src + 8 * z)) (load 8 m2 (dst + 8 * z)))
              eq (rw (first_src, first_dst) p.entry)
        | inr other ↦
            let past : i + 1 ≤ x = ground (arith, other) in
            let below : x < 512 = omega arith in
            rw (sym (later_src x past below), sym (later_dst x past below))
              (w.entries x past (omega arith))
      ]

      joined : TableForked s src dst (suc n) i m2 r2
      unfolding tally
      joined = record {
        still = w.still;
        entries = entry_at;
        outside = λ b h k.
            w.outside b (ground arith) (ground arith) ∙ p.outside b (ground arith) (ground arith);
        counts = λ q old here.
            w.counts q _ (p.counts q old here)
            ∙ ap some (
                omega (
                  arith,
                  tally_same s m1 r1 src n (i + 1) q
                      (λ x lo hi. later_src x (omega arith) (omega arith)),
                ));
      }

  table_loop :
      (s : Machine) (n i : ℕ)
      → i + n ≤ 512
      → IsValid s
      → ((x : ℕ) → x < 512 → mapped s (src + 8 * x) 8 ≡ true)
      → ((x : ℕ) → x < 512 → mapped s (dst + 8 * x) 8 ≡ true)
      → ((x : ℕ) → i ≤ x → x < i + n → IsNamed s (load 8 s.memory (src + 8 * x)))
      → (m : Memory) × (r : List ℕ) × (for_valid n i share_data src dst s ≡ ok (tt, at s m r))
        × TableForked s src dst n i m r
  unfolding for_valid pte_entry_from_index tally mapped get_page_pointer
  table_loop s zero i inside v here_src here_dst named = (
    s.memory,
    s.ref_num,
    refl,
    record {
      still = v;
      entries = λ x lo hi. absurd (omega arith);
      outside = λ b h k. refl;
      counts = λ q old here. here ∙ ap some (omega arith);
    },
  )
  table_loop s (suc n) i inside v here_src here_dst named =
      let (m1, r1, runs, p) =
        round_runs s (src + 8 * i) (dst + 8 * i) v (here_src i (omega arith))
          (here_dst i (omega arith)) (ground arith) (named i (omega arith) (omega arith)) in
      let (m2, r2, more, w) =
        table_loop (at s m1 r1) n (i + 1) (omega arith) p.still here_src here_dst (λ x lo hi.
          subst (IsNamed s) (sym (later_src s i m1 r1 p x (omega arith) (omega arith)))
            (named x (omega arith) (omega arith))) in
      (
        m2,
        r2,
        rw (read_pte_runs s (src + 8 * i) (here_src i (omega arith)) valid, ◌>>=◌, ◌>>◌, runs, more)
            refl,
        joined s i m1 r1 p n m2 r2 inside w,
      )

word_mapped :
    (s : Machine) (k x : ℕ)
    → IsValid s
    → k < max_pages
    → x < 512
    → mapped s (get_page_pointer s k + 8 * x) 8 ≡ true
unfolding mapped get_page_pointer
word_mapped s k x v hk hx = ground arith

-- The innermost loop of vms_fork_copy_on_write over all 512 entries of two different pages, in a
-- valid state where each valid entry of the first names a page of the array: it succeeds and leaves
-- a valid state; at each index where the first has a valid entry, both entries then name its page
-- with its valid and read flags, are not writable, and are marked if it was writable or marked, and
-- at every other index both entries are as before; no byte outside the two tables changes; and the
-- count of each page goes up by two for each valid entry that names it.
pub table_forked :
    (s : Machine) (k c : ℕ)
    → let src = get_page_pointer s k in
      let dst = get_page_pointer s c in
      IsValid s
      → k < max_pages
      → c < max_pages
      → k ≢ c
      → ((x : ℕ) → x < num_pte_entries → IsNamed s (load 8 s.memory (src + 8 * x)))
      → (m : Memory) × (r : List ℕ) × (for_valid num_pte_entries 0 share_data src dst s
          ≡ ok (tt, at s m r))
        × TableForked s src dst num_pte_entries 0 m r
table_forked s k c v hk hc apart named =
    table_loop (get_page_pointer s k) (get_page_pointer s c) (pages_apart s k c apart) s
      num_pte_entries 0 (omega arith) v (λ x hx. word_mapped s k x v hk hx)
      (λ x hx. word_mapped s c x v hc hx) (λ x lo hi. named x (omega arith))
