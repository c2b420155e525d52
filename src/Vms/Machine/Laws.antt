-- ===== src/Vms/Machine/Laws.antt =====
-- The accesses of the machine where they succeed, so that the proofs above keep them shut.
use kernel_modules.Common.{ℕ, ◌≡◌, true, some, get_elem?, set}
use kernel_modules.Vms.Memory.{load, store, copy}
use kernel_modules.Vms.Machine.{
  Machine, M, Stop, ok, stop, ◌>>=◌, ◌>>◌, page_size, mapped, load_word, store_word, copy_page,
  get_ref, set_ref,
}

-- A step of a chain that succeeds, or that stops the chain.
module _ {A B : Type 0} (m : M A) (f : A → M B) (s : Machine) where
  pub bind_ok : (a : A) (t : Machine) → m s ≡ ok (a, t) → (m >>= f) s ≡ f a t
  bind_ok a t h = rw (h, ◌>>=◌)

  pub bind_stop : (e : Stop) → m s ≡ stop e → (m >>= f) s ≡ stop e
  bind_stop e h = rw (h, ◌>>=◌)

module _ {B : Type 0} (m : M (Unit {0})) (k : M B) (s : Machine) where
  pub then_ok : (t : Machine) → m s ≡ ok (tt, t) → (m >> k) s ≡ k t
  then_ok t h = rw (h, ◌>>◌)

  pub then_stop : (e : Stop) → m s ≡ stop e → (m >> k) s ≡ stop e
  then_stop e h = rw (h, ◌>>◌)

module _ (s : Machine) where
  pub load_word_lem : (n p : ℕ) → mapped s p n ≡ true → load_word n p s ≡ ok (load n s.memory p, s)
  unfolding load_word
  load_word_lem n p h = rw h

  pub store_word_lem :
      (n p v : ℕ)
      → mapped s p n ≡ true
      → store_word n p v s ≡ ok (tt, record s { memory = store n s.memory p v })
  unfolding store_word
  store_word_lem n p v h = rw h

  pub copy_page_lem :
      (dst src : ℕ)
      → mapped s dst page_size ≡ true
      → mapped s src page_size ≡ true
      → copy_page dst src s ≡ ok (tt, record s { memory = copy s.memory dst src page_size })
  unfolding copy_page
  copy_page_lem dst src h k = rw (h, k)

  pub get_ref_lem : (i n : ℕ) → get_elem? s.ref_num i ≡ some n → get_ref i s ≡ ok (n, s)
  unfolding get_ref
  get_ref_lem i n h = rw (h, get_ref)

  pub set_ref_lem :
      (i n m : ℕ)
      → get_elem? s.ref_num i ≡ some n
      → set_ref i m s ≡ ok (tt, record s { ref_num = set s.ref_num i m })
  unfolding set_ref
  set_ref_lem i n m h = rw (h, set_ref)

  pub mapped_same : (t : Machine) (p n : ℕ) → t.base ≡ s.base → mapped t p n ≡ mapped s p n
  unfolding mapped
  mapped_same t p n h = rw h
