-- ===== src/Vms/Fork/EntryCopy.antt =====
-- entry_copy: the word that the destination entry ends with, and the bytes that are kept.
use kernel_modules.Common.{
  ℕ, ◌+◌, ◌/◌, ◌%◌, ◌^◌, ◌≤◌, ◌<◌, ◌≡◌, refl, ◌∙◌, Bool, true, arith, ◌⊎◌, inl, inr, Bool-cases,
}
use kernel_modules.Vms.Memory.{
  Memory, load, store, load-store_self, load-store_apart, store_outside,
}
use kernel_modules.Vms.Machine.{Machine, ok, ◌>>=◌, ◌>>◌, page_size, mapped}
use kernel_modules.Vms.Pte.{
  valid, read, write, custom, valid_set, valid_clear, read_set, read_clear, write_set, write_clear,
  custom_set, custom_clear, get_ppn, set_ppn,
}
use kernel_modules.Vms.Pte.Arith.{set_ppn_lem}
use kernel_modules.Vms.Pte.Ppn.{set_ppn_fields}
use kernel_modules.Vms.PageTable.{ppn_to_page, page_to_ppn}
use kernel_modules.Vms.PageTable.Laws.{page_to_ppn_runs, ppn_through_entry}
use kernel_modules.Vms.Fault.{update_pte}
use kernel_modules.Vms.Fault.Steps.{load-lt_word, read_pte_runs, update_pte_runs}
use kernel_modules.Vms.Fork.Words.{
  flag_word, flags_word, custom_word, write_word, read_word, valid_word, flags_word_fields,
}
use kernel_modules.Vms.Fork.{flag_copy, entry_copy}

-- One step of entry_copy on a memory `m` that holds `e` at the source and `w` at the destination.
module _ (s : Machine) (src dst e : ℕ) (here_src : mapped s src 8 ≡ true)
    (here_dst : mapped s dst 8 ≡ true) (apart : (src + 8 ≤ dst) ⊎ (dst + 8 ≤ src)) where
  at : Memory → Machine
  at m = record s { memory = m }

  flag_copy_runs :
      (flag : ℕ → Bool) (flag_set flag_clear : ℕ → ℕ) (m : Memory) (w : ℕ)
      → load 8 m src ≡ e
      → load 8 m dst ≡ w
      → flag_copy flag flag_set flag_clear src dst (at m)
        ≡ ok (tt, at (store 8 m dst (flag_word flag flag_set flag_clear e w)))
  unfolding flag_copy flag_word at mapped
  flag_copy_runs flag flag_set flag_clear m w hs hd = elim (Bool-cases (flag e)) [
    | inl on ↦ rw (
      read_pte_runs (at m) src here_src flag,
      ◌>>=◌,
      hs,
      on,
      update_pte_runs (at m) dst here_dst flag_set,
      hd,
    )
    | inr off ↦ rw (
      read_pte_runs (at m) src here_src flag,
      ◌>>=◌,
      hs,
      off,
      update_pte_runs (at m) dst here_dst flag_clear,
      hd,
    )
  ]

  kept : (m : Memory) (w : ℕ) → load 8 m src ≡ e → load 8 (store 8 m dst w) src ≡ e
  kept m w hs = load-store_apart 8 8 m src dst w apart ∙ hs

  module _ (m : Memory) (ppn : ℕ) (hs : load 8 m src ≡ e) where
    named_word : ℕ
    named_word = set_ppn (load 8 m dst) ppn

    after_custom : ℕ
    after_custom = flag_word custom custom_set custom_clear e named_word

    after_write : ℕ
    after_write = flag_word write write_set write_clear e after_custom

    after_read : ℕ
    after_read = flag_word read read_set read_clear e after_write

    after_valid : ℕ
    after_valid = flag_word valid valid_set valid_clear e after_read

    named-lt : named_word < 2 ^ 64
    unfolding named_word
    named-lt =
        omega (arith, set_ppn_lem (load 8 m dst) ppn (load-lt_word m dst), load-lt_word m dst)

    custom-lt : after_custom < 2 ^ 64
    unfolding after_custom
    custom-lt = omega (arith, named-lt, custom_word e named_word named-lt)

    write-lt : after_write < 2 ^ 64
    unfolding after_write
    write-lt = omega (arith, custom-lt, write_word e after_custom custom-lt)

    read-lt : after_read < 2 ^ 64
    unfolding after_read
    read-lt = omega (arith, write-lt, read_word e after_write write-lt)

    valid-lt : after_valid < 2 ^ 64
    unfolding after_valid
    valid-lt = omega (arith, read-lt, valid_word e after_read read-lt)

    written : Memory
    written =
        store 8
          (store 8 (store 8 (store 8 (store 8 m dst named_word) dst after_custom) dst after_write)
            dst after_read)
          dst after_valid

    name_runs : update_pte (λ w. set_ppn w ppn) dst (at m) ≡ ok (tt, at (store 8 m dst named_word))
    unfolding named_word at mapped
    name_runs = update_pte_runs (at m) dst here_dst (λ w. set_ppn w ppn)

    entry_copy_runs :
        (pointer : ℕ)
        → page_to_ppn pointer (at m) ≡ ok (ppn, at m)
        → entry_copy src dst pointer (at m) ≡ ok (tt, at written)
    unfolding entry_copy written after_custom after_write after_read after_valid named_word
    entry_copy_runs pointer number =
        let m1 = store 8 m dst named_word in
        let m2 = store 8 m1 dst after_custom in
        let m3 = store 8 m2 dst after_write in
        let m4 = store 8 m3 dst after_read in
        let h1 = kept m named_word hs in
        let h2 = kept m1 after_custom h1 in
        let h3 = kept m2 after_write h2 in
        let h4 = kept m3 after_read h3 in
        rw (
          number,
          ◌>>=◌,
          name_runs,
          ◌>>◌,
          flag_copy_runs custom custom_set custom_clear m1 named_word h1
              (load-store_self 8 m dst named_word named-lt),
          flag_copy_runs write write_set write_clear m2 after_custom h2
              (load-store_self 8 m1 dst after_custom custom-lt),
          flag_copy_runs read read_set read_clear m3 after_write h3
              (load-store_self 8 m2 dst after_write write-lt),
          flag_copy_runs valid valid_set valid_clear m4 after_read h4
              (load-store_self 8 m3 dst after_read read-lt),
        )

    written_word : load 8 written dst ≡ flags_word e (set_ppn (load 8 m dst) ppn)
    unfolding written flags_word after_valid after_read after_write after_custom named_word
    written_word = load-store_self 8 _ dst after_valid valid-lt

    written_outside : (b : ℕ) → (b < dst) ⊎ (dst + 8 ≤ b) → written b ≡ m b
    unfolding written
    written_outside b h =
        store_outside 8 _ dst after_valid b h
        ∙ store_outside 8 _ dst after_read b h
        ∙ store_outside 8 _ dst after_write b h
        ∙ store_outside 8 _ dst after_custom b h
        ∙ store_outside 8 m dst named_word b h

-- entry_copy, for two entries in the mapping that do not meet and an aligned page below 2 ^ 56: the
-- destination then names the page and has the four flags of the source, its ten high bits are as
-- before, and no other byte and nothing else of the state changes.
pub entry_copy_lem :
    (s : Machine) (src dst pointer : ℕ)
    → mapped s src 8 ≡ true
    → mapped s dst 8 ≡ true
    → (src + 8 ≤ dst) ⊎ (dst + 8 ≤ src)
    → pointer % page_size ≡ 0
    → pointer < 2 ^ 56
    → (m : Memory) × (entry_copy src dst pointer s ≡ ok (tt, record s { memory = m }))
      × (ppn_to_page (get_ppn (load 8 m dst)) ≡ pointer)
      × (valid (load 8 m dst) ≡ valid (load 8 s.memory src))
      × (read (load 8 m dst) ≡ read (load 8 s.memory src))
      × (write (load 8 m dst) ≡ write (load 8 s.memory src))
      × (custom (load 8 m dst) ≡ custom (load 8 s.memory src))
      × (load 8 m dst / 2 ^ 54 ≡ load 8 s.memory dst / 2 ^ 54)
      × ((b : ℕ) → (b < dst) ⊎ (dst + 8 ≤ b) → m b ≡ s.memory b)
entry_copy_lem s src dst pointer here_src here_dst apart aligned low =
    let e = load 8 s.memory src in
    let ppn = pointer / page_size in
    let w = load 8 s.memory dst in
    let m = written s src dst e here_src here_dst apart s.memory ppn refl in
    let word = written_word s src dst e here_src here_dst apart s.memory ppn refl in
    let p = set_ppn_fields w ppn (load-lt_word s.memory dst) in
    let f = flags_word_fields e (set_ppn w ppn) p.7 in
    (
      m,
      (unfold at in
          entry_copy_runs s src dst e here_src here_dst apart s.memory ppn refl pointer
            (page_to_ppn_runs pointer s aligned (omega arith))),
      rw (word, f.0)
          (ppn_through_entry w pointer (load-lt_word s.memory dst) aligned (omega arith)
            ∙ omega arith),
      rw word f.1,
      rw word f.2,
      rw word f.3,
      rw word f.4,
      rw word (f.5 ∙ p.5),
      written_outside s src dst e here_src here_dst apart s.memory ppn refl,
    )
