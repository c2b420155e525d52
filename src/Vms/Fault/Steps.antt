-- ===== src/Vms/Fault/Steps.antt =====
-- The steps of page_fault_handler where they succeed, and what they leave unchanged.
use kernel_modules.Common.{
  ℕ, ◌+◌, ◌^◌, ◌≤◌, ◌<◌, ◌≡◌, true, false, some, if◌then◌else◌, arith, ◌⊎◌, inl, inr, Bool-cases,
  get_elem?, set,
}
use kernel_modules.Vms.Memory.{Memory, load, store, load-lt, load-store_self, store_outside}
use kernel_modules.Vms.Machine.{Machine, ok, ◌>>=◌, ◌>>◌, mapped}
use kernel_modules.Vms.Machine.Laws.{load_word_lem, store_word_lem, get_ref_lem, set_ref_lem}
use kernel_modules.Vms.Pte.{write, custom, custom_clear, write_set}
use kernel_modules.Vms.Pte.Arith.{custom_clear_lem, write_set_lem, write_lem, custom_lem}
use kernel_modules.Vms.Pages.{get_page_index}
use kernel_modules.Vms.Fault.{read_pte, update_pte, restore_write, ref_of, set_ref_of}

-- An entry is a 64-bit word.
pub load-lt_word : (m : Memory) (a : ℕ) → load 8 m a < 2 ^ 64
load-lt_word m a = load-lt 8 m a

-- What restore_write makes of an entry.
unfoldable pub restored : ℕ → ℕ
restored e = if custom e then custom_clear (write_set e) else e

pub restored-lt : (e : ℕ) → e < 2 ^ 64 → restored e < 2 ^ 64
unfolding restored
restored-lt e h = ground (arith, write_set_lem e, custom_clear_lem (write_set e))

module _ (s : Machine) (a : ℕ) (here : mapped s a 8 ≡ true) where
  pub read_pte_runs :
      {A : Type 0} (field : ℕ → A) → read_pte field a s ≡ ok (field (load 8 s.memory a), s)
  unfolding read_pte
  read_pte_runs field = rw (load_word_lem s 8 a here, ◌>>=◌)

  pub update_pte_runs :
      (change : ℕ → ℕ)
      → update_pte change a s
        ≡ ok (tt, record s { memory = store 8 s.memory a (change (load 8 s.memory a)) })
  unfolding update_pte
  update_pte_runs change = rw (load_word_lem s 8 a here, ◌>>=◌, store_word_lem s 8 a _ here)

-- A marked entry becomes writable and loses its mark.
pub restored_marked :
    (e : ℕ)
    → e < 2 ^ 64
    → custom e ≡ true
    → (write (restored e) ≡ true) × (custom (restored e) ≡ false)
unfolding restored
restored_marked e h on =
    let a = write_set_lem e in
    let b = custom_clear_lem (write_set e) (omega (arith, a)) in
    let w = custom_clear (write_set e) in
    rw on (ground (arith, a, b, write_lem w), ground (arith, a, b, custom_lem w))

-- The memory after restore_write, whose second update reads what the first has stored.
unfoldable pub after_restore : Memory → ℕ → Memory
after_restore m a =
    let e = write_set (load 8 m a) in
    if custom (load 8 m a) then store 8 (store 8 m a e) a (custom_clear e) else m

write_set-lt : (m : Memory) (a : ℕ) → write_set (load 8 m a) < 2 ^ 64
write_set-lt m a = omega (arith, write_set_lem (load 8 m a), load-lt_word m a)

pub restore_write_runs :
    (s : Machine) (a : ℕ)
    → mapped s a 8 ≡ true
    → restore_write a s ≡ ok (tt, record s { memory = after_restore s.memory a })
unfolding restore_write after_restore mapped
restore_write_runs s a here = elim (Bool-cases (custom (load 8 s.memory a))) [
  | inl marked ↦
      let e = write_set (load 8 s.memory a) in
      rw (
        read_pte_runs s a here custom,
        ◌>>=◌,
        marked,
        update_pte_runs s a here write_set,
        ◌>>◌,
        update_pte_runs (record s { memory = store 8 s.memory a e }) a here custom_clear,
        load-store_self 8 s.memory a e (write_set-lt s.memory a),
      )
  | inr plain ↦ rw (read_pte_runs s a here custom, ◌>>=◌, plain)
]

module _ (m : Memory) (a : ℕ) where
  pub load-after_restore : load 8 (after_restore m a) a ≡ restored (load 8 m a)
  unfolding after_restore restored
  load-after_restore = elim (Bool-cases (custom (load 8 m a))) [
    | inl marked ↦ rw marked (
        load-store_self 8 (store 8 m a (write_set (load 8 m a))) a
          (custom_clear (write_set (load 8 m a)))
          (omega (arith, write_set-lt m a, custom_clear_lem (write_set (load 8 m a)))))
    | inr plain ↦ rw plain
  ]

  pub after_restore_outside : (b : ℕ) → (b < a) ⊎ (a + 8 ≤ b) → after_restore m a b ≡ m b
  unfolding after_restore
  after_restore_outside b h =
      let e = write_set (load 8 m a) in
      ground
        (arith, store_outside 8 m a e b h, store_outside 8 (store 8 m a e) a (custom_clear e) b h)

-- The reference counts, through the page's address.
module _ (s : Machine) (page i n : ℕ) (at_page : get_page_index s page ≡ i)
    (count : get_elem? s.ref_num i ≡ some n) where
  pub ref_of_runs : ref_of page s ≡ ok (n, s)
  unfolding ref_of
  ref_of_runs = rw at_page (get_ref_lem s i n count)

  pub set_ref_of_runs :
      (m : ℕ) → set_ref_of page m s ≡ ok (tt, record s { ref_num = set s.ref_num i m })
  unfolding set_ref_of
  set_ref_of_runs m = rw at_page (set_ref_lem s i n m count)
