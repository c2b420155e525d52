-- ===== src/Vms/Fork/Protect.antt =====
-- The protection of a shared page in vms_fork_copy_on_write: a writable page becomes read-only and
-- marked in both tables.
use kernel_modules.Common.{
  ℕ, ◌+◌, ◌^◌, ◌≤◌, ◌<◌, ◌≡◌, refl, ap, ◌∙◌, true, false, ◌||◌, if◌then◌else◌, arith, ◌⊎◌, inl, inr,
  Bool-cases,
}
use kernel_modules.Vms.Memory.{
  Memory, load, store, load-store_self, load-store_apart, store_outside,
}
use kernel_modules.Vms.Machine.{Machine, ok, ◌>>=◌, ◌>>◌, mapped}
use kernel_modules.Vms.Pte.{valid, read, write, custom, write_clear, custom_set, get_ppn}
use kernel_modules.Vms.Pte.Arith.{
  valid_lem, read_lem, write_lem, custom_lem, write_clear_lem, custom_set_lem, get_ppn_lem,
}
use kernel_modules.Vms.Fault.Steps.{load-lt_word, read_pte_runs, update_pte_runs}
use kernel_modules.Vms.Fork.{protect}

-- The word of an entry after `protect`.
unfoldable pub protected : ℕ → ℕ
protected e = if write e then custom_set (write_clear e) else e

protected-lt : (e : ℕ) → e < 2 ^ 64 → protected e < 2 ^ 64
unfolding protected
protected-lt e h = ground (arith, write_clear_lem e h, custom_set_lem (write_clear e))

marked_fields :
    (e : ℕ)
    → e < 2 ^ 64
    → let w = custom_set (write_clear e) in
      (get_ppn w ≡ get_ppn e)
      × (valid w ≡ valid e)
      × (read w ≡ read e)
      × (write w ≡ false)
      × (custom w ≡ true)
marked_fields e h =
    let a = write_clear_lem e h in
    let b = custom_set_lem (write_clear e) in
    let w = custom_set (write_clear e) in
    (
      omega (arith, a, b, get_ppn_lem),
      ground (arith, a, b, valid_lem e, valid_lem w),
      ground (arith, a, b, read_lem e, read_lem w),
      ground (arith, a, b, write_lem w),
      ground (arith, a, b, custom_lem w),
    )

pub protected_fields :
    (e : ℕ)
    → e < 2 ^ 64
    → (get_ppn (protected e) ≡ get_ppn e)
      × (valid (protected e) ≡ valid e)
      × (read (protected e) ≡ read e)
      × (write (protected e) ≡ false)
      × (custom (protected e) ≡ write e || custom e)
unfolding protected
protected_fields e h = elim (Bool-cases (write e)) [
  | inl on ↦ let f = marked_fields e h in rw (on) (f.0, f.1, f.2, f.3, f.4)
  | inr off ↦ rw (off) (refl, refl, refl, off, refl)
]

-- The memory after the two updates of the entry at `a`.
unfoldable pub weaken : Memory → ℕ → Memory
weaken m a = let e = write_clear (load 8 m a) in store 8 (store 8 m a e) a (custom_set e)

module _ (m : Memory) (a : ℕ) where
  clear-lt : write_clear (load 8 m a) < 2 ^ 64
  clear-lt = omega (arith, write_clear_lem (load 8 m a) (load-lt_word m a), load-lt_word m a)

  load-weaken : load 8 (weaken m a) a ≡ custom_set (write_clear (load 8 m a))
  unfolding weaken
  load-weaken =
      load-store_self 8 _ a (custom_set (write_clear (load 8 m a)))
        (omega (arith, clear-lt, custom_set_lem (write_clear (load 8 m a))))

  weaken_outside : (b : ℕ) → (b < a) ⊎ (a + 8 ≤ b) → weaken m a b ≡ m b
  unfolding weaken
  weaken_outside b h = store_outside 8 _ a _ b h ∙ store_outside 8 m a _ b h

  load-weaken_apart : (b : ℕ) → (b + 8 ≤ a) ⊎ (a + 8 ≤ b) → load 8 (weaken m a) b ≡ load 8 m b
  unfolding weaken
  load-weaken_apart b h = load-store_apart 8 8 _ b a _ h ∙ load-store_apart 8 8 m b a _ h

  cleared_marked : load 8 (store 8 m a (write_clear (load 8 m a))) a ≡ write_clear (load 8 m a)
  cleared_marked = load-store_self 8 m a (write_clear (load 8 m a)) clear-lt

-- protect, for two mapped entries that do not meet, of which the destination has the source's write
-- and mark flags.
pub protect_runs :
    (s : Machine) (src dst : ℕ)
    → mapped s src 8 ≡ true
    → mapped s dst 8 ≡ true
    → (src + 8 ≤ dst) ⊎ (dst + 8 ≤ src)
    → write (load 8 s.memory dst) ≡ write (load 8 s.memory src)
    → (m : Memory) × (protect src dst s ≡ ok (tt, record s { memory = m }))
      × (load 8 m dst ≡ protected (load 8 s.memory dst))
      × (load 8 m src ≡ protected (load 8 s.memory src))
      × ((b : ℕ) → (b < dst) ⊎ (dst + 8 ≤ b) → (b < src) ⊎ (src + 8 ≤ b) → m b ≡ s.memory b)
unfolding protect protected weaken mapped
protect_runs s src dst here_src here_dst apart alike =
    elim (Bool-cases (write (load 8 s.memory src))) [
      | inl on ↦
          let m0 = s.memory in
          let m1 = weaken m0 dst in
          (
            weaken m1 src,
            rw (
              read_pte_runs s src here_src write,
              ◌>>=◌,
              on,
              update_pte_runs s dst here_dst write_clear,
              ◌>>◌,
              update_pte_runs (record s { memory = store 8 m0 dst (write_clear (load 8 m0 dst)) })
                  dst here_dst custom_set,
              cleared_marked m0 dst,
              update_pte_runs (record s { memory = m1 }) src here_src write_clear,
              update_pte_runs (record s { memory = store 8 m1 src (write_clear (load 8 m1 src)) })
                  src here_src custom_set,
              cleared_marked m1 src,
            ),
            rw (alike, on) (load-weaken_apart m1 src dst (ground arith) ∙ load-weaken m0 dst),
            rw on (
                load-weaken m1 src
                ∙ ap (λ e. custom_set (write_clear e))
                    (load-weaken_apart m0 dst src (ground arith))),
            (λ b h k. weaken_outside m1 src b k ∙ weaken_outside m0 dst b h),
          )
      | inr off ↦ (
        s.memory,
        rw (read_pte_runs s src here_src write, ◌>>=◌, off),
        rw (alike, off),
        rw (off),
        (λ b h k. refl),
      )
    ]
