-- ===== src/Vms/Fork/Words.antt =====
-- The words that entry_copy makes: four flags of one entry put into another.
use kernel_modules.Common.{ℕ, ◌+◌, ◌*◌, ◌/◌, ◌%◌, ◌^◌, ◌<◌, ◌≡◌, ◌∙◌, Bool, if◌then◌else◌, arith}
use kernel_modules.Vms.Pte.{
  valid, read, write, custom, valid_set, valid_clear, read_set, read_clear, write_set, write_clear,
  custom_set, custom_clear, get_ppn,
}
use kernel_modules.Vms.Pte.Arith.{
  valid_lem, read_lem, write_lem, custom_lem, valid_set_lem, read_set_lem, write_set_lem,
  custom_set_lem, valid_clear_lem, read_clear_lem, write_clear_lem, custom_clear_lem, get_ppn_lem,
}

-- The word of the destination after one flag was copied from the source's word `e`.
unfoldable pub flag_word : (ℕ → Bool) → (ℕ → ℕ) → (ℕ → ℕ) → ℕ → ℕ → ℕ
flag_word flag flag_set flag_clear e w = if flag e then flag_set w else flag_clear w

-- The four flags of `e`, put into `w`.
unfoldable pub flags_word : ℕ → ℕ → ℕ
unfolding flag_word
flags_word e w = flag_word valid valid_set valid_clear e (
    flag_word read read_set read_clear e
      (flag_word write write_set write_clear e (flag_word custom custom_set custom_clear e w)))

module _ (e w : ℕ) (h : w < 2 ^ 64) where
  pub custom_word :
      flag_word custom custom_set custom_clear e w ≡ w / 512 * 512 + (e / 256 % 2) * 256 + w % 256
  unfolding flag_word
  custom_word = ground (arith, custom_lem e, custom_set_lem w, custom_clear_lem w h)

  pub write_word : flag_word write write_set write_clear e w ≡ w / 8 * 8 + (e / 4 % 2) * 4 + w % 4
  unfolding flag_word
  write_word = ground (arith, write_lem e, write_set_lem w, write_clear_lem w h)

  pub read_word : flag_word read read_set read_clear e w ≡ w / 4 * 4 + (e / 2 % 2) * 2 + w % 2
  unfolding flag_word
  read_word = ground (arith, read_lem e, read_set_lem w, read_clear_lem w h)

  pub valid_word : flag_word valid valid_set valid_clear e w ≡ w / 2 * 2 + e % 2
  unfolding flag_word
  valid_word = ground (arith, valid_lem e, valid_set_lem w, valid_clear_lem w h)

-- All four at once.
flags_word_lem :
    (e w : ℕ)
    → w < 2 ^ 64
    → flags_word e w ≡ w / 512 * 512 + (e / 256 % 2) * 256 + w / 8 % 32 * 8 + e % 8
unfolding flags_word
flags_word_lem e w h =
    let a = custom_word e w h in
    let b = write_word e (flag_word custom custom_set custom_clear e w) (omega (arith, a)) in
    let c =
      read_word e
        (flag_word write write_set write_clear e (flag_word custom custom_set custom_clear e w))
        (omega (arith, a, b)) in
    valid_word e _ (omega (arith, a, b, c)) ∙ omega (arith, a, b, c)

-- The fields of the destination's word.
pub flags_word_fields :
    (e w : ℕ)
    → w < 2 ^ 64
    → (get_ppn (flags_word e w) ≡ get_ppn w)
      × (valid (flags_word e w) ≡ valid e)
      × (read (flags_word e w) ≡ read e)
      × (write (flags_word e w) ≡ write e)
      × (custom (flags_word e w) ≡ custom e)
      × (flags_word e w / 2 ^ 54 ≡ w / 2 ^ 54)
flags_word_fields e w h =
    let f = flags_word_lem e w h in
    (
      omega (arith, f, get_ppn_lem),
      ground (arith, f, valid_lem e, valid_lem (flags_word e w)),
      ground (arith, f, read_lem e, read_lem (flags_word e w)),
      ground (arith, f, write_lem e, write_lem (flags_word e w)),
      ground (arith, f, custom_lem e, custom_lem (flags_word e w)),
      omega (arith, f),
    )
