-- ===== src/Wut/Lists.antt =====
-- The operations of wut/src/wut.c on one thread object or one entry of the ready queue.
use kernel_modules.Common.{
  ℕ, ◌≡◌, refl, true, false, ◌==◌, List, [], ◌∷◌, ◌++◌, some, get_elem?, set, ok, ◌>>=◌, arith,
}
use kernel_modules.Wut.{Thread, Wut, update, member, remove, insert_tail, remove_entry}
use kernel_modules.Wut.Ids.{object_runs}

-- The state with another array of objects, and with another queue.
abbrev pub objects_in : Wut → List Thread → Wut
objects_in s objects = record s { objects = objects }

abbrev pub queue_in : Wut → List ℕ → Wut
queue_in s queue = record s { ready_queue = queue }

module _ (s : Wut) (pointer : ℕ) (th : Thread)
    (at_pointer : get_elem? s.objects pointer ≡ some th) where
  pub update_runs :
      (change : Thread → Thread)
      → update pointer change s ≡ ok (tt, objects_in s (set s.objects pointer (change th)))
  unfolding update
  update_runs change = rw (object_runs s pointer th at_pointer, ◌>>=◌)

  pub insert_runs :
      th.has_entry ≡ true
      → member pointer s.ready_queue ≡ false
      → insert_tail pointer s ≡ ok (tt, queue_in s (s.ready_queue ++ (pointer ∷ [])))
  unfolding insert_tail
  insert_runs entry out = rw (object_runs s pointer th at_pointer, ◌>>=◌, entry, out) refl

  pub remove_runs :
      th.has_entry ≡ true
      → member pointer s.ready_queue ≡ true
      → remove_entry pointer s ≡ ok (tt, queue_in s (remove pointer s.ready_queue))
  unfolding remove_entry
  remove_runs entry there = rw (object_runs s pointer th at_pointer, ◌>>=◌, entry, there) refl

pub ==_self : (n : ℕ) → (n == n) ≡ true
==_self n = ground arith

pub remove-first : (a : ℕ) (queue : List ℕ) → remove a (a ∷ queue) ≡ queue
remove-first a queue = rw (==_self a) refl
