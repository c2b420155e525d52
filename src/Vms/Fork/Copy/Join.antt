-- ===== src/Vms/Fork/Copy/Join.antt =====
-- The innermost loop of vms_fork_copy: the first round and then the others.
use kernel_modules.Common.{
  ℕ, zero, suc, ◌+◌, ◌*◌, ◌≤◌, ◌<◌, ◌≡◌, ◌≢◌, refl, sym, ap, ◌∙◌, Bool, true, some, arith, inl, inr,
  Bool-cases, ◌==◌, List, get_elem?,
}
use mathlib.Core.Path.{subst}
use kernel_modules.Vms.Memory.{Memory, load, load_congr}
use kernel_modules.Vms.Machine.{Machine}
use kernel_modules.Vms.Pte.{valid, get_ppn}
use kernel_modules.Vms.PageTable.{ppn_to_page}
use kernel_modules.Vms.Pages.{get_page_pointer}
use kernel_modules.Vms.Fork.Copy.{grown, SameFlags}
use kernel_modules.Vms.Fork.Copy.Table.{word_at, valid_count, NamesUsed, CopiedEntry, TableCopied}

-- A word of which every byte is kept.
word_kept :
    (m w : Memory) (a o : ℕ)
    → ((b : ℕ) → o ≤ b → b < o + 8 → w (a + b) ≡ m (a + b))
    → load 8 w (a + o) ≡ load 8 m (a + o)
word_kept m w a o kept = load_congr 8 w m (a + o) (a + o) (λ i h.
    let eq : a + (o + i) ≡ a + o + i = omega arith in
    subst (λ z. w z ≡ m z) eq (kept (o + i) (omega arith) (omega arith)))

pointer-injective : (s : Machine) (a b : ℕ) → get_page_pointer s a ≡ get_page_pointer s b → a ≡ b
unfolding get_page_pointer
pointer-injective s a b h = omega arith

pub valid_count_same :
    (s : Machine) (m : Memory) (bs : List Bool) (u k n i : ℕ)
    → ((x : ℕ) → i ≤ x → x < i + n → word_at s m k x ≡ word_at s s.memory k x)
    → valid_count (grown s m bs u) k n i ≡ valid_count s k n i
unfolding valid_count get_page_pointer
valid_count_same s m bs u k zero i same = refl
valid_count_same s m bs u k (suc n) i same =
    let rest =
      valid_count_same s m bs u k n (i + 1) (λ x lo hi. same x (omega arith) (omega arith)) in
    rw (same i (omega arith) (omega arith), rest) refl

pub count_at_valid :
    (s : Machine) (k n i : ℕ)
    → valid (word_at s s.memory k i) ≡ true
    → valid_count s k (suc n) i ≡ 1 + valid_count s k n (i + 1)
unfolding valid_count
count_at_valid s k n i on = rw on refl

pub count_first :
    (s : Machine) (k n i : ℕ)
    → valid_count s k (suc n) i ≡ valid_count s k 1 i + valid_count s k n (i + 1)
unfolding valid_count
count_first s k n i = omega arith

-- The first round and then the others.
module _ (s : Machine) (k c : ℕ) (used_k : get_elem? s.allocated k ≡ some true)
    (used_c : get_elem? s.allocated c ≡ some true) (kc : k ≢ c) (n x : ℕ) (inside : x + suc n ≤ 512)
    (m1 : Memory) (bs1 : List Bool) (u1 : ℕ) (p : TableCopied s k c 1 x m1 bs1 u1) where
  pub word_k : (y : ℕ) → y < 512 → word_at s m1 k y ≡ word_at s s.memory k y
  word_k y hy =
      word_kept s.memory m1 (get_page_pointer s k) (8 * y)
        (λ b lo hi. p.kept k b used_k (omega arith) (inl (λ e. kc (sym e))))

  word_c : (y : ℕ) → x + 1 ≤ y → y < 512 → word_at s m1 c y ≡ word_at s s.memory c y
  word_c y past hy =
      word_kept s.memory m1 (get_page_pointer s c) (8 * y)
        (λ b lo hi. p.kept c b used_c (omega arith) (inr (inr (omega arith))))

  pub still_named :
      (y : ℕ)
      → y < 512
      → NamesUsed s c (word_at s s.memory k y)
      → NamesUsed (grown s m1 bs1 u1) c (word_at s m1 k y)
  unfolding get_page_pointer
  still_named y hy named =
      rw (word_k y hy)
        (λ on. let (q, used_q, cq, names) = named on in (q, p.grows q used_q, cq, names))

  module _ (m2 : Memory) (bs2 : List Bool) (u2 : ℕ)
      (named : (y : ℕ) → x ≤ y → y < x + suc n → NamesUsed s c (word_at s s.memory k y))
      (w : TableCopied (grown s m1 bs1 u1) k c n (x + 1) m2 bs2 u2) where
    first_word : word_at s m2 c x ≡ word_at s m1 c x
    unfolding get_page_pointer
    first_word =
        word_kept m1 m2 (get_page_pointer s c) (8 * x)
          (λ b lo hi. w.kept c b (p.grows c used_c) (omega arith) (inr (inl (omega arith))))

    not_c : (j : ℕ) → get_elem? s.allocated j ≢ some true → c ≢ j
    not_c j fresh e = fresh (subst (λ z. get_elem? s.allocated z ≡ some true) e used_c)

    first_entry :
        CopiedEntry s m2 bs2 (word_at s s.memory k x) (word_at s s.memory c x) (word_at s m2 c x)
    unfolding get_page_pointer
    first_entry = elim (p.entries x (omega arith) (omega arith)) [
      | inl (on, j, fresh, now, flags, bytes) ↦ inl (
        on,
        j,
        fresh,
        w.grows j now,
        rw first_word flags,
        (λ i hi. w.kept j i now hi (inl (not_c j fresh)) ∙ bytes i hi),
      )
      | inr (off, same) ↦ inr (off, first_word ∙ same)
    ]

    later_entry :
        (y : ℕ)
        → x + 1 ≤ y
        → y < x + suc n
        → CopiedEntry s m2 bs2 (word_at s s.memory k y) (word_at s s.memory c y) (word_at s m2 c y)
    unfolding get_page_pointer
    later_entry y past hy =
        let ek : word_at s m1 k y ≡ word_at s s.memory k y = word_k y (omega arith) in
        let ec : word_at s m1 c y ≡ word_at s s.memory c y = word_c y past (omega arith) in
        elim (w.entries y past (omega arith)) [
          | inl (on, j, fresh, now, flags, bytes) ↦
              let on' : valid (word_at s s.memory k y) ≡ true = sym (ap valid ek) ∙ on in
              let (q, used_q, cq, names) = named y (omega arith) hy on' in
              inl (
                on',
                j,
                (λ h. fresh (p.grows j h)),
                now,
                subst (λ e. SameFlags e (get_page_pointer s j) (word_at s m2 c y)) ek flags,
                (λ i hi.
                    bytes i hi
                    ∙ ap (λ e. m1 (ppn_to_page (get_ppn e) + i)) ek
                    ∙ rw names (p.kept q i used_q hi (inl cq))),
              )
          | inr (off, same) ↦ inr (sym (ap valid ek) ∙ off, same ∙ ec)
        ]

    first_apart :
        (z : ℕ)
        → x < z
        → z < x + suc n
        → valid (word_at s s.memory k x) ≡ true
        → valid (word_at s s.memory k z) ≡ true
        → ppn_to_page (get_ppn (word_at s m2 c x)) ≢ ppn_to_page (get_ppn (word_at s m2 c z))
    unfolding get_page_pointer
    first_apart z past hz on onz h =
        let ez : word_at s m1 k z ≡ word_at s s.memory k z = word_k z (omega arith) in
        elim (p.entries x (omega arith) (omega arith)) [
          | inr (off, same) ↦ cc (on, off)
          | inl (on', j, fresh, now, flags, bytes) ↦
              elim (w.entries z (omega arith) (omega arith)) [
                | inr (off, same) ↦ cc (onz, off, ez)
                | inl (onz', i, fresh', now', flags', bytes') ↦
                    let here : ppn_to_page (get_ppn (word_at s m2 c x)) ≡ get_page_pointer s j =
                      ap (λ e. ppn_to_page (get_ppn e)) first_word ∙ flags.names in
                    let eq : j ≡ i = pointer-injective s j i (sym here ∙ h ∙ flags'.names) in
                    fresh' (subst (λ q. get_elem? bs1 q ≡ some true) eq now)
              ]
        ]

    entry_at :
        (y : ℕ)
        → x ≤ y
        → y < x + suc n
        → CopiedEntry s m2 bs2 (word_at s s.memory k y) (word_at s s.memory c y) (word_at s m2 c y)
    entry_at y lo hi = elim (Bool-cases (x == y)) [
      | inl same ↦
          let eq : x ≡ y = ground (arith, same) in
          subst
            (λ z.
              CopiedEntry s m2 bs2 (word_at s s.memory k z) (word_at s s.memory c z)
                (word_at s m2 c z))
            eq first_entry
      | inr other ↦ later_entry y (ground (arith, other)) hi
    ]

    pages_distinct :
        (y z : ℕ)
        → x ≤ y
        → y < z
        → z < x + suc n
        → valid (word_at s s.memory k y) ≡ true
        → valid (word_at s s.memory k z) ≡ true
        → ppn_to_page (get_ppn (word_at s m2 c y)) ≢ ppn_to_page (get_ppn (word_at s m2 c z))
    unfolding get_page_pointer
    pages_distinct y z lo lt hi ony onz = elim (Bool-cases (x == y)) [
      | inl same ↦
          let eq : y ≡ x = ground (arith, same) in
          subst
            (λ q.
              ppn_to_page (get_ppn (word_at s m2 c q)) ≢ ppn_to_page (get_ppn (word_at s m2 c z)))
            (sym eq)
            (first_apart z (omega arith) hi
              (subst (λ q. valid (word_at s s.memory k q) ≡ true) eq ony) onz)
      | inr other ↦
          let past : x + 1 ≤ y = ground (arith, other) in
          w.distinct y z past lt (omega arith) (ap valid (word_k y (omega arith)) ∙ ony)
            (ap valid (word_k z (omega arith)) ∙ onz)
    ]

    pub joined : TableCopied s k c (suc n) x m2 bs2 u2
    unfolding get_page_pointer
    joined = record {
      still = w.still;
      entries = entry_at;
      distinct = pages_distinct;
      kept = λ q b used_q hb o.
          w.kept q b (p.grows q used_q) hb (ground arith) ∙ p.kept q b used_q hb (ground arith);
      grows = λ q h. w.grows q (p.grows q h);
      used = omega (
        arith,
        w.used,
        p.used,
        count_first s k n x,
        valid_count_same s m1 bs1 u1 k n (x + 1) (λ y lo hi. word_k y (omega arith)),
      );
    }
