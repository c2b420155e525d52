-- ===== src/Wut.antt =====
-- wut/src/wut.c: user threads. A thread object keeps its address for ever, as delete_thread frees
-- nothing; its address is its index in `objects`, and its entry of the ready queue, which
-- wut_create makes once, goes by the same number. A call is the code up to its return or to the
-- switch to another context.
pub mod Library
pub mod Ids
pub mod Turns
pub mod Slots
pub mod Create
pub mod Lists
pub mod Joins
pub mod Cancel
mod Tests
use kernel_modules.Common.{
  ℕ, zero, suc, ◌+◌, ◌*◌, ◌%◌, ◌≡◌, Bool, true, false, not, ◌&&◌, ◌||◌, ◌==◌, ltb, leb,
  if◌then◌else◌, List, [], ◌∷◌, ◌++◌, Option, none, some, length, get_elem?, set, replicate, Call,
  ok, stop, ◌>>=◌, ◌>>◌, ret, fail, or_fail, ℤ, pos, negsuc, minus_one, is_negative, same_int,
}

-- `state` is -1 (alive), -2 (blocked) or the exit status; `has_entry` tells that `ent` is not NULL.
pub record Thread : Type 0 where
  pub id : ℕ
  pub block_id : ℤ
  pub state : ℤ
  pub has_entry : Bool

-- The static variables, with `threads_capacity` as the length of `threads`.
pub record Wut : Type 0 where
  pub objects : List Thread
  pub threads : List (Option ℕ)
  pub threads_count : ℕ
  pub ready_queue : List ℕ

-- The ends of a run: exit(0), die, an access out of the array, one through NULL, and a list
-- operation on an entry that the list does not have, or has already.
pub data Stop : Type 0 where
  exit_zero died out_of_bounds null_pointer broken_list : Stop

abbrev pub WutCall : Type 0 → Type 0
WutCall = Call Stop Wut

-- `*pointer` and a write to its fields.
unfoldable pub object : ℕ → WutCall Thread
object pointer s = or_fail out_of_bounds (get_elem? s.objects pointer) s

unfoldable pub update : ℕ → (Thread → Thread) → WutCall (Unit {0})
unfolding object
update pointer change = do
  th ← object pointer
  (λ s. ok (tt, record s { objects = set s.objects pointer (change th) }))

-- `threads[id]`, which may be NULL.
unfoldable pub thread_at : ℕ → WutCall (Option ℕ)
thread_at id s = or_fail out_of_bounds (get_elem? s.threads id) s

unfoldable pub set_thread_at : ℕ → Option ℕ → WutCall (Unit {0})
set_thread_at id pointer s = ok (tt, record s { threads = set s.threads id pointer })

-- `TAILQ_FIRST(&ready_queue)->val`.
unfoldable pub head_thread : WutCall ℕ
head_thread s = elim s.ready_queue [ [] ↦ stop null_pointer | head ∷ rest ↦ ok (head, s) ]

abbrev pub member : ℕ → List ℕ → Bool
member a [] = false
member a (b ∷ rest) = a == b || member a rest

abbrev pub remove : ℕ → List ℕ → List ℕ
remove a [] = []
remove a (b ∷ rest) = let kept = remove a rest in if a == b then rest else b ∷ kept

-- TAILQ_INSERT_TAIL of the entry of a thread.
unfoldable pub insert_tail : ℕ → WutCall (Unit {0})
insert_tail pointer = do
  th ← object pointer
  if th.has_entry
      then (λ s.
          if member pointer s.ready_queue
          then stop broken_list
          else ok (tt, record s { ready_queue = s.ready_queue ++ (pointer ∷ []) }))
      else fail null_pointer

-- TAILQ_REMOVE of the entry of a thread.
unfoldable pub remove_entry : ℕ → WutCall (Unit {0})
remove_entry pointer = do
  th ← object pointer
  if th.has_entry
      then (λ s.
          if member pointer s.ready_queue
          then ok (tt, record s { ready_queue = remove pointer s.ready_queue })
          else stop broken_list)
      else fail null_pointer

unfoldable pub threads_expand : WutCall (Unit {0})
threads_expand s = ok (tt, record s { threads = s.threads ++ replicate (length s.threads) none })

-- The loop of min_available_id, from index `i` on.
unfoldable pub find_null : List (Option ℕ) → ℕ → ℤ
find_null [] i = minus_one
find_null (none ∷ rest) i = pos i
find_null (some pointer ∷ rest) i = find_null rest (i + 1)

unfoldable pub min_available_id : Wut → ℤ
unfolding find_null
min_available_id s = find_null s.threads 0

-- The new object; its address is the number of objects before. The context and the stack are not
-- kept.
unfoldable pub create_thread : WutCall ℕ
unfolding min_available_id
create_thread s = elim (min_available_id s) [
  | negsuc n ↦ stop died
  | pos id ↦ ok (
    length s.objects,
    record s {
      objects =
          s.objects
          ++ (record { id = id; block_id = minus_one; state = minus_one; has_entry = false } ∷ []);
      threads_count = s.threads_count + 1;
    },
  )
]

unfoldable pub delete_thread : ℕ → WutCall (Unit {0})
unfolding update
delete_thread pointer = update pointer (λ th. record th { has_entry = false })

unfoldable pub create_entry : ℕ → WutCall (Unit {0})
unfolding update insert_tail
create_entry pointer = do update pointer (λ th. record th { has_entry = true }); insert_tail pointer
