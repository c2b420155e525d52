-- ===== src/Vms/Fork/Entry.antt =====
-- One round of the innermost loop of vms_fork_copy_on_write: the entry at one index of two tables.
use kernel_modules.Common.{
  ℕ, ◌+◌, ◌*◌, ◌≤◌, ◌<◌, ◌≡◌, ◌≢◌, refl, sym, ap, ◌∙◌, true, false, some, ◌&&◌, ◌==◌, if◌then◌else◌,
  arith, ◌⊎◌, inl, inr, Bool-cases, List, get_elem?, get_elem?-lt, set, get_elem?-set,
  get_elem?-set_ne,
}
use kernel_modules.Vms.Memory.{Memory, load}
use kernel_modules.Vms.Machine.{Machine, ok, done, max_pages, mapped}
use kernel_modules.Vms.Pte.{valid, get_ppn}
use kernel_modules.Vms.PageTable.{ppn_to_page}
use kernel_modules.Vms.Pages.{get_page_pointer}
use kernel_modules.Vms.Pages.Alloc.{IsValid}
use kernel_modules.Vms.Fork.{share_data}
use kernel_modules.Vms.Fork.Shared.{SharedEntry, shared-IsValid, share_data_lem}

-- The machine with another memory and other reference counts.
abbrev pub at : Machine → Memory → List ℕ → Machine
at s m r = record s { memory = m; ref_num = r }

-- The entry words `e` and `w` of the two tables became `a` and `b`: shared if `e` is valid.
abbrev pub ForkedEntry : ℕ → ℕ → ℕ → ℕ → Type 0
ForkedEntry e w a b =
    ((valid e ≡ true)
      × SharedEntry e (ppn_to_page (get_ppn e)) a
      × SharedEntry e (ppn_to_page (get_ppn e)) b)
    ⊎ ((valid e ≡ false) × (a ≡ e) × (b ≡ w))

-- The references that the word of an entry has to page `q`.
unfoldable pub uses : Machine → ℕ → ℕ → ℕ
uses s e q = if valid e && ppn_to_page (get_ppn e) == get_page_pointer s q then 1 else 0

-- An entry is not valid, or names a page of the array.
abbrev pub IsNamed : Machine → ℕ → Type 0
IsNamed s e =
    valid e ≡ true → (n : ℕ) × (n < max_pages) × (ppn_to_page (get_ppn e) ≡ get_page_pointer s n)

pub record RoundDone (s : Machine) (src dst : ℕ) (m : Memory) (r : List ℕ) : Type 0 where
  pub still : IsValid (at s m r)
  pub entry : ForkedEntry (load 8 s.memory src) (load 8 s.memory dst) (load 8 m src) (load 8 m dst)
  pub outside : (b : ℕ) → (b < dst) ⊎ (dst + 8 ≤ b) → (b < src) ⊎ (src + 8 ≤ b) → m b ≡ s.memory b
  pub counts :
      (q old : ℕ)
      → get_elem? s.ref_num q ≡ some old
      → get_elem? r q ≡ some (old + 2 * uses s (load 8 s.memory src) q)

some-injective : {a b : ℕ} → some a ≡ some b → a ≡ b
some-injective h = cc h

uses_named :
    (s : Machine) (e n q : ℕ)
    → valid e ≡ true
    → ppn_to_page (get_ppn e) ≡ get_page_pointer s n
    → uses s e q ≡ (if q == n then 1 else 0)
unfolding uses get_page_pointer
uses_named s e n q on names = ground (arith, on, names)

counts_shared :
    (s : Machine) (e n refs q old : ℕ)
    → valid e ≡ true
    → ppn_to_page (get_ppn e) ≡ get_page_pointer s n
    → get_elem? s.ref_num n ≡ some refs
    → get_elem? s.ref_num q ≡ some old
    → get_elem? (set s.ref_num n (refs + 2)) q ≡ some (old + 2 * uses s e q)
counts_shared s e n refs q old on names count here = elim (Bool-cases (q == n)) [
  | inl same ↦
      let eq : q ≡ n = ground (arith, same) in
      let u : uses s e q ≡ 1 = uses_named s e n q on names ∙ rw same refl in
      let v : old ≡ refs = some-injective (sym here ∙ ap (get_elem? s.ref_num) eq ∙ count) in
      ap (get_elem? (set s.ref_num n (refs + 2))) eq
      ∙ get_elem?-set s.ref_num n refs (refs + 2) count
      ∙ ap some (omega (arith, u, v))
  | inr other ↦
      let ne : n ≢ q = (λ h. ground (arith, other)) in
      let u : uses s e q ≡ 0 = uses_named s e n q on names ∙ rw other refl in
      get_elem?-set_ne s.ref_num (refs + 2) ne ∙ here ∙ ap some (omega (arith, u))
]

shares :
    (s : Machine) (src dst : ℕ)
    → IsValid s
    → mapped s src 8 ≡ true
    → mapped s dst 8 ≡ true
    → (src + 8 ≤ dst) ⊎ (dst + 8 ≤ src)
    → valid (load 8 s.memory src) ≡ true
    → (n : ℕ) × (n < max_pages)
      × (ppn_to_page (get_ppn (load 8 s.memory src)) ≡ get_page_pointer s n)
    → (m : Memory) × (r : List ℕ) × (share_data src dst s ≡ ok (tt, at s m r))
      × RoundDone s src dst m r
shares s src dst v here_src here_dst apart on (n, hn, names) =
    let (refs, count) = get_elem?-lt s.ref_num n (rw v.refs hn) in
    let (m, runs, p) = share_data_lem s src dst n refs v here_src here_dst apart hn names count in
    (
      m,
      set s.ref_num n (refs + 2),
      runs,
      record {
        still = shared-IsValid s n refs m v;
        entry = inl (on, rw names p.src_entry, rw names p.dst_entry);
        outside = p.others;
        counts =
            λ q old here. counts_shared s (load 8 s.memory src) n refs q old on names count here;
      },
    )

-- The body at a valid entry, and `continue` at another.
pub round_runs :
    (s : Machine) (src dst : ℕ)
    → IsValid s
    → mapped s src 8 ≡ true
    → mapped s dst 8 ≡ true
    → (src + 8 ≤ dst) ⊎ (dst + 8 ≤ src)
    → IsNamed s (load 8 s.memory src)
    → (m : Memory) × (r : List ℕ) × ((if valid (load 8 s.memory src)
            then share_data src dst
            else done)
          s
        ≡ ok (tt, at s m r))
      × RoundDone s src dst m r
round_runs s src dst v here_src here_dst apart named =
    elim (Bool-cases (valid (load 8 s.memory src))) [
      | inl on ↦
          let (m, r, runs, p) = shares s src dst v here_src here_dst apart on (named on) in
          (m, r, rw on runs, p)
      | inr off ↦ (
        s.memory,
        s.ref_num,
        rw (off, done) refl,
        record {
          still = v;
          entry = inr (off, refl, refl);
          outside = λ b h k. refl;
          counts = λ q old here. here ∙ ap some (unfold uses in rw off (omega arith));
        },
      )
    ]
