-- ===== src/Wut/Tests.antt =====
-- Runs of wut/src/wut.c in the model, and its theorems at concrete states.
use kernel_modules.Common.{
  false, get_elem?, ℕ, ◌≡◌, refl, true, [], ◌∷◌, none, some, arith, pos, minus_one, Outcome, ok,
  stop, ◌>>=◌, ◌>>◌,
}
use kernel_modules.Wut.{
  null_pointer, Stop, Thread, Wut, out_of_bounds, object, update, thread_at, set_thread_at,
  head_thread, insert_tail, remove_entry, threads_expand, find_null, min_available_id,
  create_thread, delete_thread, create_entry,
}
use kernel_modules.Wut.Library.{
  wut_init, wut_id, wut_create, wake, unblock, checked, cancel_thread, wut_cancel, join_thread,
  join_from, wut_join, join_rest, wut_yield, wut_exit, delete_thread_entry, schedule,
}
use kernel_modules.Wut.Turns.{yields}
use kernel_modules.Wut.Ids.{id_at_capacity}
use kernel_modules.Wut.Slots.{taken, IsLeastNull, IsCounted, grown}
use kernel_modules.Wut.Cancel.{IsQuiet, cancelled_state, cancel-join, cancel_exited}
use kernel_modules.Wut.Joins.{join_gets_status}
use kernel_modules.Wut.Create.{created, wut_create_lem}

program : Unit {0}
unfolding object update thread_at set_thread_at head_thread insert_tail remove_entry threads_expand
    find_null min_available_id create_thread delete_thread create_entry wut_init wut_id wut_create
    wake unblock checked cancel_thread wut_cancel join_thread join_from wut_join join_rest wut_yield
    wut_exit delete_thread_entry schedule
program = tt

abbrev zeros : Wut
zeros = record { objects = []; threads = []; threads_count = 0; ready_queue = [] }

abbrev answer : {A : Type 0} → Outcome Stop (A × Wut) → Outcome Stop A
answer (ok (a, s)) = ok a
answer (stop e) = stop e

-- Main makes thread 1 and joins it; thread 1 exits with 300, that is 44, and main gets that status.
joins :
    answer (
      (do
        wut_init
        id ← wut_create
        switched ← wut_join (pos id)
        wut_exit 300
        schedule
        join_rest id)
        zeros)
    ≡ ok (pos 44)
unfolding program
joins = refl

-- A cancelled thread is joined with 128.
cancels :
    answer
      ((do wut_init; id ← wut_create; cancelled ← wut_cancel (pos id); wut_join (pos id)) zeros)
    ≡ ok (some (pos 128))
unfolding program
cancels = refl

-- The main thread and two more, in an array of four slots.
abbrev thread : ℕ → Thread
thread id = record { id = id; block_id = minus_one; state = minus_one; has_entry = true }

abbrev three : Wut
three = record {
  objects = thread 0 ∷ thread 1 ∷ thread 2 ∷ [];
  threads = some 0 ∷ some 1 ∷ some 2 ∷ none ∷ [];
  threads_count = 3;
  ready_queue = 0 ∷ 1 ∷ 2 ∷ [];
}

three-IsCounted : IsCounted three
unfolding taken
three-IsCounted = record { room = omega arith; counted = omega arith; known = λ a h. ground arith }

wut_create_lem_example :
    (id : ℕ) × (wut_create three ≡ ok (id, created three id))
    × IsLeastNull (grown three) id
    × IsCounted (created three id)
wut_create_lem_example = wut_create_lem three three-IsCounted

id_at_capacity_example :
    (wut_cancel (pos 4) three ≡ stop out_of_bounds) × (wut_join (pos 4) three ≡ stop out_of_bounds)
id_at_capacity_example = id_at_capacity three 0 (1 ∷ 2 ∷ []) (thread 0) refl refl

-- Main joins thread 1, which exits with 300; thread 2 is ready as well.
join_gets_status_example :
    (t : Wut) × ((do switched ← wut_join (pos 1); wut_exit 300; schedule; yields 1; join_rest 1)
        three
      ≡ ok (pos 44, t))
    × (t.ready_queue ≡ 0 ∷ 2 ∷ [])
    × (t.threads ≡ some 0 ∷ none ∷ some 2 ∷ none ∷ [])
    × (get_elem? t.objects 0 ≡ some (thread 0))
join_gets_status_example =
    join_gets_status three 0 1 (2 ∷ []) (thread 0) (thread 1) 300 refl refl refl refl refl
      (λ e. omega (arith, e)) refl refl refl refl refl refl

three-IsQuiet : (id : ℕ) → IsQuiet three id three.ready_queue
three-IsQuiet id = ((thread 0, refl, refl), ((thread 1, refl, refl), ((thread 2, refl, refl), tt)))

cancel-join_example :
    let t =
      cancelled_state three 0 2 (1 ∷ 2 ∷ []) (thread 0) (thread 2) 2 refl refl refl refl refl in
    (wut_cancel (pos 2) three ≡ ok (pos 0, t))
    × (wut_join (pos 2) t
        ≡ ok (some (pos 128), record t { threads = some 0 ∷ some 1 ∷ none ∷ none ∷ [] }))
cancel-join_example =
    cancel-join three 0 2 (1 ∷ 2 ∷ []) (thread 0) (thread 2) 2 refl refl refl refl refl
      (three-IsQuiet 2) refl refl refl refl

-- Thread 3 has exited with 7.
abbrev ended : Thread
ended = record { id = 3; block_id = minus_one; state = pos 7; has_entry = false }

abbrev four : Wut
four = record three {
  objects = thread 0 ∷ thread 1 ∷ thread 2 ∷ ended ∷ [];
  threads = some 0 ∷ some 1 ∷ some 2 ∷ some 3 ∷ [];
}

cancel_exited_example : wut_cancel (pos 3) four ≡ stop null_pointer
cancel_exited_example =
    cancel_exited four 0 3 (1 ∷ 2 ∷ []) (thread 0) ended 3 refl refl refl refl refl
      ((thread 0, refl, refl), ((thread 1, refl, refl), ((thread 2, refl, refl), tt))) refl refl
