-- ===== src/Vms/Pte/Ppn.antt =====
-- The physical page number of vms/src/pte.c against the flags and the reserved bits.
use kernel_modules.Common.{ℕ, ◌/◌, ◌%◌, ◌^◌, ◌<◌, ◌≡◌, arith}
use kernel_modules.Vms.Pte.{
  valid_clear, valid_set, valid, read_clear, read_set, read, write_clear, write_set, write,
  custom_clear, custom_set, custom, get_ppn, set_ppn,
}
use kernel_modules.Vms.Pte.Arith.{
  valid_lem, read_lem, write_lem, custom_lem, valid_set_lem, read_set_lem, write_set_lem,
  custom_set_lem, valid_clear_lem, read_clear_lem, write_clear_lem, custom_clear_lem, get_ppn_lem,
  set_ppn_lem,
}

-- Storing a page number in a 64-bit entry: it reads back cut to 44 bits, the four flags read as
-- before, the ten bits above and the ten bits below the number keep their values, and the entry
-- still fits 64 bits.
pub set_ppn_fields :
    (e p : ℕ)
    → e < 2 ^ 64
    → (get_ppn (set_ppn e p) ≡ p % 2 ^ 44)
      × (valid (set_ppn e p) ≡ valid e)
      × (read (set_ppn e p) ≡ read e)
      × (write (set_ppn e p) ≡ write e)
      × (custom (set_ppn e p) ≡ custom e)
      × (set_ppn e p / 2 ^ 54 ≡ e / 2 ^ 54)
      × (set_ppn e p % 2 ^ 10 ≡ e % 2 ^ 10)
      × (set_ppn e p < 2 ^ 64)
set_ppn_fields e p h =
    let s = set_ppn_lem e p h in
    (
      omega (arith, s, get_ppn_lem (set_ppn e p)),
      ground (arith, low, valid_lem e, valid_lem (set_ppn e p)),
      ground (arith, low, read_lem e, read_lem (set_ppn e p)),
      ground (arith, low, write_lem e, write_lem (set_ppn e p)),
      ground (arith, low, custom_lem e, custom_lem (set_ppn e p)),
      omega (arith, s),
      low,
      omega (arith, s),
    )
  where
    low : set_ppn e p % 2 ^ 10 ≡ e % 2 ^ 10
    low = omega (arith, set_ppn_lem e p h)

-- No flag operation on a 64-bit entry changes the page number.
pub get_ppn_flags :
    (e : ℕ)
    → e < 2 ^ 64
    → (get_ppn (valid_set e) ≡ get_ppn e)
      × (get_ppn (valid_clear e) ≡ get_ppn e)
      × (get_ppn (read_set e) ≡ get_ppn e)
      × (get_ppn (read_clear e) ≡ get_ppn e)
      × (get_ppn (write_set e) ≡ get_ppn e)
      × (get_ppn (write_clear e) ≡ get_ppn e)
      × (get_ppn (custom_set e) ≡ get_ppn e)
      × (get_ppn (custom_clear e) ≡ get_ppn e)
get_ppn_flags e h = omega (
  arith,
  get_ppn_lem,
  valid_set_lem e,
  valid_clear_lem e h,
  read_set_lem e,
  read_clear_lem e h,
  write_set_lem e,
  write_clear_lem e h,
  custom_set_lem e,
  custom_clear_lem e h,
)
