-- ===== src/Vms/Fork/Copy/Round.antt =====
-- One round of the innermost loop of vms_fork_copy: the entry at one index of two tables.
use kernel_modules.Common.{
  ℕ, ◌+◌, ◌*◌, ◌≤◌, ◌<◌, ◌≡◌, ◌≢◌, refl, sym, ap, ◌∙◌, Bool, true, false, some, if◌then◌else◌,
  arith, ◌⊎◌, inl, inr, Bool-cases, ◌==◌, List, get_elem?, set, get_elem?-set, get_elem?-set_ne,
}
use mathlib.Core.Path.{subst}
use kernel_modules.Vms.Memory.{Memory}
use kernel_modules.Vms.Machine.{Machine, ok, done, max_pages, page_size, mapped}
use kernel_modules.Vms.Pte.{valid, get_ppn}
use kernel_modules.Vms.PageTable.{ppn_to_page}
use kernel_modules.Vms.Pages.{get_page_pointer}
use kernel_modules.Vms.Pages.Free.{lt-length_of_get}
use kernel_modules.Vms.Pages.Alloc.{IsValid}
use kernel_modules.Vms.Fault.Shared.{pages_apart, used_ne_free}
use kernel_modules.Vms.Fork.{copy_data}
use kernel_modules.Vms.Fork.Copy.{grown, NewCopy, copy_data_lem}
use kernel_modules.Vms.Fork.Copy.Table.{word_at, valid_count, NamesUsed, CopiedEntry, TableCopied}

module _ (s : Machine) (v : IsValid s) where
  used-lt : (k : ℕ) → get_elem? s.allocated k ≡ some true → k < max_pages
  used-lt k h = omega (arith, lt-length_of_get s.allocated k true h, v.pages)

  pub word_mapped :
      (k x : ℕ)
      → get_elem? s.allocated k ≡ some true
      → x < 512
      → mapped s (get_page_pointer s k + 8 * x) 8 ≡ true
  unfolding mapped get_page_pointer
  word_mapped k x hk hx = ground (arith, used-lt k hk)

-- One round of the loop is the loop over one entry.
module _ (s : Machine) (k c : ℕ) (v : IsValid s) (used_k : get_elem? s.allocated k ≡ some true)
    (used_c : get_elem? s.allocated c ≡ some true) (kc : k ≢ c) (x : ℕ) (hx : x < 512) where
  src : ℕ
  src = get_page_pointer s k + 8 * x

  dst : ℕ
  dst = get_page_pointer s c + 8 * x

  words_apart : (src + 8 ≤ dst) ⊎ (dst + 8 ≤ src)
  unfolding src dst
  words_apart = ground (arith, pages_apart s k c kc)

  module _ (q b : ℕ) (hb : b < page_size) where
    -- A byte of a page, of page `c` outside of the entry.
    not_in_entry :
        (c ≢ q) ⊎ ((b < 8 * x) ⊎ (8 * (x + 1) ≤ b))
        → (get_page_pointer s q + b < dst) ⊎ (dst + 8 ≤ get_page_pointer s q + b)
    unfolding dst
    not_in_entry (inl other) = ground (arith, pages_apart s c q other)
    not_in_entry (inr range) = elim (Bool-cases (c == q)) [
      | inl same ↦
          let eq : c ≡ q = ground (arith, same) in
          let at_c : get_page_pointer s c ≡ get_page_pointer s q = ap (get_page_pointer s) eq in
          ground (arith, range, at_c)
      | inr other ↦
          let ne : c ≢ q = (λ h. ground (arith, other)) in ground (arith, pages_apart s c q ne)
    ]

    not_in_page :
        (j : ℕ)
        → q ≢ j
        → (get_page_pointer s q + b < get_page_pointer s j)
          ⊎ (get_page_pointer s j + page_size ≤ get_page_pointer s q + b)
    not_in_page j h = ground (arith, pages_apart s q j h)

  of_copy :
      (n j : ℕ) (m : Memory)
      → ppn_to_page (get_ppn (word_at s s.memory k x)) ≡ get_page_pointer s n
      → valid (word_at s s.memory k x) ≡ true
      → NewCopy s src dst n j m
      → TableCopied s k c 1 x m (set s.allocated j true) (s.used + 1)
  unfolding valid_count src dst
  of_copy n j m names on p = record {
    still = p.still;
    entries = λ y a b.
        let eq : x ≡ y = omega arith in
        subst
          (λ z.
            CopiedEntry s m (set s.allocated j true) (word_at s s.memory k z)
              (word_at s s.memory c z) (word_at s m c z))
          eq
          (inl (
            on,
            j,
            (λ h. cc p.free),
            get_elem?-set s.allocated j false true p.free,
            p.entry,
            (λ i hi. rw names (p.bytes i hi)),
          ));
    distinct = λ y z a b d ony onz. absurd (omega arith);
    kept = λ q b h hb o.
        p.outside (get_page_pointer s q + b) (not_in_entry q b hb o)
          (not_in_page q b hb j (used_ne_free s.allocated q j h p.free));
    grows = λ q h.
        get_elem?-set_ne s.allocated true (λ e. used_ne_free s.allocated q j h p.free (sym e)) ∙ h;
    used = rw on (omega arith);
  }

  round_copies :
      (n : ℕ)
      → get_elem? s.allocated n ≡ some true
      → c ≢ n
      → ppn_to_page (get_ppn (word_at s s.memory k x)) ≡ get_page_pointer s n
      → valid (word_at s s.memory k x) ≡ true
      → s.used < max_pages
      → (m : Memory) × (bs : List Bool) × (u : ℕ) × (copy_data src dst s ≡ ok (tt, grown s m bs u))
        × TableCopied s k c 1 x m bs u
  unfolding valid_count src dst
  round_copies n used_n cn names on room =
      let (j, m, runs, p) =
        copy_data_lem s src dst c n v (word_mapped s v k x used_k hx)
          (word_mapped s v c x used_c hx) words_apart (omega arith) (omega arith) used_c used_n cn
          names room in
      (m, set s.allocated j true, s.used + 1, runs, of_copy n j m names on p)

  round_passes :
      valid (word_at s s.memory k x) ≡ false → TableCopied s k c 1 x s.memory s.allocated s.used
  unfolding valid_count
  round_passes off = record {
    still = v;
    entries = λ y a b.
        let eq : x ≡ y = omega arith in
        inr (subst (λ z. valid (word_at s s.memory k z) ≡ false) eq off, refl);
    distinct = λ y z a b d ony onz. absurd (omega arith);
    kept = λ q b h hb o. refl;
    grows = λ q h. h;
    used = rw off (omega arith);
  }

  -- The body at a valid entry, and `continue` at another.
  pub round_copied :
      NamesUsed s c (word_at s s.memory k x)
      → (valid (word_at s s.memory k x) ≡ true → s.used < max_pages)
      → (m : Memory) × (bs : List Bool) × (u : ℕ) × ((if valid (word_at s s.memory k x)
              then copy_data (get_page_pointer s k + 8 * x) (get_page_pointer s c + 8 * x)
              else done)
            s
          ≡ ok (tt, grown s m bs u))
        × TableCopied s k c 1 x m bs u
  unfolding src dst
  round_copied named room = elim (Bool-cases (valid (word_at s s.memory k x))) [
    | inl on ↦
        let (n, used_n, cn, names) = named on in
        let (m, bs, u, runs, p) = round_copies n used_n cn names on (room on) in
        (m, bs, u, rw on runs, p)
    | inr off ↦ (s.memory, s.allocated, s.used, rw (off, done) refl, round_passes off)
  ]
