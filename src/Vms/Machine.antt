-- ===== src/Vms/Machine.antt =====
-- The state of vms/src (its static variables and the memory that it maps), and how a call ends.
pub mod Laws
use kernel_modules.Common.{
  ◌≡◌, ap, ℕ, ◌+◌, ◌*◌, Bool, true, false, ◌&&◌, leb, if◌then◌else◌, List, none, some, get_elem?,
  set,
}
use kernel_modules.Vms.Memory.{Memory, load, store, copy, clear}

abbrev pub max_pages : ℕ
max_pages = 256

abbrev pub num_pte_entries : ℕ
num_pte_entries = 512

abbrev pub page_size : ℕ
page_size = 4096

-- `exit(code)`; a failed `assert`; an access outside the mapping; an array index out of bounds; and
-- a loop of the model that ran out of fuel, which no loop does (see `Vms.Mmu.Walk`).
pub data Stop : Type 0 where
  exit : ℕ → Stop
  assertion segfault out_of_bounds out_of_fuel : Stop

pub data Result (A : Type 0) : Type 0 where
  ok : A → Result A
  stop : Stop → Result A

abbrev pub ok_or : {A : Type 0} → A → Result A → A
ok_or d (ok a) = a
ok_or d (stop e) = d

pub ok-injective : {A : Type 0} (a b : A) → ok a ≡ ok b → a ≡ b
ok-injective a b e = ap (ok_or a) e

-- pages.c: `base_pointer`, `allocated` (each 0 or 1) and `used_pages`; mmu.c: `root_page_table`, 0
-- for NULL; vms.c: `ref_num`. The counters are ints: far fewer than 2 ^ 31 steps reach them.
pub record Machine : Type 0 where
  pub base : ℕ
  pub memory : Memory
  pub allocated : List Bool
  pub used : ℕ
  pub root : ℕ
  pub ref_num : List ℕ

abbrev pub M : Type 0 → Type 0
M A = Machine → Result (A × Machine)

infixl 5 ◌>>=◌ ◌>>◌
abbrev pub ◌>>=◌ : {A B : Type 0} → M A → (A → M B) → M B
◌>>=◌ m f s = elim (m s) [ ok (a, s') ↦ f a s' | stop e ↦ stop e ]

abbrev pub ◌>>◌ : {B : Type 0} → M (Unit {0}) → M B → M B
◌>>◌ m k s = elim (m s) [ ok (_, s') ↦ k s' | stop e ↦ stop e ]

abbrev pub ret : {A : Type 0} → A → M A
ret a s = ok (a, s)

abbrev pub fail : {A : Type 0} → Stop → M A
fail e s = stop e

abbrev pub done : M (Unit {0})
done s = ok (tt, s)

-- `assert(b)`.
abbrev pub assert : Bool → M (Unit {0})
assert true s = ok (tt, s)
assert false s = stop assertion

-- Whether `n` bytes at `a` lie in the mapping of vms_init.
unfoldable pub mapped : Machine → ℕ → ℕ → Bool
mapped s a n = leb s.base a && leb (a + n) (s.base + max_pages * page_size)

-- `*p` for a p of `n` bytes' size, and `*p = v`.
unfoldable pub load_word : ℕ → ℕ → M ℕ
load_word n p s = if mapped s p n then ok (load n s.memory p, s) else stop segfault

unfoldable pub store_word : ℕ → ℕ → ℕ → M (Unit {0})
store_word n p v s =
    if mapped s p n then ok (tt, record s { memory = store n s.memory p v }) else stop segfault

unfoldable pub copy_page : ℕ → ℕ → M (Unit {0})
copy_page dst src s =
    if mapped s dst page_size && mapped s src page_size
    then ok (tt, record s { memory = copy s.memory dst src page_size })
    else stop segfault

unfoldable pub clear_page : ℕ → M (Unit {0})
clear_page p s =
    if mapped s p page_size
    then ok (tt, record s { memory = clear s.memory p page_size })
    else stop segfault

-- `ref_num[i]`, and `ref_num[i] = n`.
unfoldable pub get_ref : ℕ → M ℕ
get_ref i s = elim (get_elem? s.ref_num i) [ some n ↦ ok (n, s) | none ↦ stop out_of_bounds ]

unfoldable pub set_ref : ℕ → ℕ → M (Unit {0})
set_ref i n s = elim (get_elem? s.ref_num i) [
  | some _ ↦ ok (tt, record s { ref_num = set s.ref_num i n })
  | none ↦ stop out_of_bounds
]
